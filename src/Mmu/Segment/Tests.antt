-- ===== src/Mmu/Segment/Tests.antt =====
-- Descriptors of the boot loader's kind, and the theorems used on them.
use os.Base.{ℕ, ◌≡◌, Bool, if◌then◌else◌, arith}
use os.Mmu.Segment.{
  Gatedesc, segdesc_bits, gatedesc_bits, seg, seg16, seg_asm, setgate, setcallgate,
}
use os.Mmu.Segment.Layout.{
  segment_base, segment_limit, HasAccess, IsGate, bytes, seg_lem, seg16_lem, seg-seg_asm,
  setgate-setcallgate,
}

abbrev code : ℕ
code = 0xa

abbrev lim_32 : ℕ
lim_32 = 0xffffffff

seg_lem_example :
    segment_base (segdesc_bits (seg code 0x12345678 lim_32 3)) ≡ 0x12345678
    × segment_limit (segdesc_bits (seg code 0x12345678 lim_32 3)) ≡ lim_32
    × HasAccess (segdesc_bits (seg code 0x12345678 lim_32 3)) code 1 3
seg_lem_example =
    seg_lem code 0x12345678 lim_32 3 (omega arith) (omega arith) (omega arith) (omega arith)

seg16_lem_example :
    segment_base (segdesc_bits (seg16 9 0x12345678 0x67 0)) ≡ 0x12345678
    × segment_limit (segdesc_bits (seg16 9 0x12345678 0x67 0)) ≡ 0x67
    × HasAccess (segdesc_bits (seg16 9 0x12345678 0x67 0)) 9 1 0
seg16_lem_example =
    seg16_lem 9 0x12345678 0x67 0 (omega arith) (omega arith) (omega arith) (omega arith)
      (omega arith)

seg-seg_asm_example : bytes (segdesc_bits (seg code 0 lim_32 0)) ≡ seg_asm code 0 lim_32
seg-seg_asm_example = seg-seg_asm code 0 lim_32 (omega arith) (omega arith) (omega arith)

abbrev old : Gatedesc
old = record {
  gd_off_15_0 = 7;
  gd_sel = 7;
  gd_args = 7;
  gd_rsv1 = 7;
  gd_type = 7;
  gd_s = 1;
  gd_dpl = 3;
  gd_p = 0;
  gd_off_31_16 = 7;
}

setgate-setcallgate_example :
    ((istrap : Bool)
      → IsGate
          (gatedesc_bits (setgate istrap 8 0xf0101234 3 old))
          (if istrap then 0xf else 0xe)
          8
          0xf0101234
          3)
    × IsGate (gatedesc_bits (setcallgate 8 0xf0101234 3 old)) 0xc 8 0xf0101234 3
setgate-setcallgate_example =
    setgate-setcallgate 8 0xf0101234 3 old (omega arith) (omega arith) (omega arith)
