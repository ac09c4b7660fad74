-- ===== src/Mmu/Segment.antt =====
-- Part 2 and 3 of inc/mmu.h: the descriptors of segments and gates. A bit field keeps the low bits
-- of what is stored in it, and fields are laid out from the lowest bit on.
pub mod Layout
mod Tests
use os.Base.{ℕ, ◌+◌, ◌*◌, ◌/◌, ◌%◌, ◌^◌, Bool, List, [], ◌∷◌, if◌then◌else◌, bit_and, bit_or, shr}

-- `struct Segdesc`
pub record Segdesc : Type 0 where
  pub sd_lim_15_0 : ℕ
  pub sd_base_15_0 : ℕ
  pub sd_base_23_16 : ℕ
  pub sd_type : ℕ
  pub sd_s : ℕ
  pub sd_dpl : ℕ
  pub sd_p : ℕ
  pub sd_lim_19_16 : ℕ
  pub sd_avl : ℕ
  pub sd_rsv1 : ℕ
  pub sd_db : ℕ
  pub sd_g : ℕ
  pub sd_base_31_24 : ℕ

-- The bits of a descriptor as a number of 64 bits.
abbrev pub segdesc_bits : Segdesc → ℕ
segdesc_bits d =
    d.sd_lim_15_0
    + d.sd_base_15_0 * 2 ^ 16
    + d.sd_base_23_16 * 2 ^ 32
    + d.sd_type * 2 ^ 40
    + d.sd_s * 2 ^ 44
    + d.sd_dpl * 2 ^ 45
    + d.sd_p * 2 ^ 47
    + d.sd_lim_19_16 * 2 ^ 48
    + d.sd_avl * 2 ^ 52
    + d.sd_rsv1 * 2 ^ 53
    + d.sd_db * 2 ^ 54
    + d.sd_g * 2 ^ 55
    + d.sd_base_31_24 * 2 ^ 56

-- `SEG_NULL` and `SEG_FAULT`
abbrev pub seg_null : Segdesc
seg_null = record {
  sd_lim_15_0 = 0;
  sd_base_15_0 = 0;
  sd_base_23_16 = 0;
  sd_type = 0;
  sd_s = 0;
  sd_dpl = 0;
  sd_p = 0;
  sd_lim_19_16 = 0;
  sd_avl = 0;
  sd_rsv1 = 0;
  sd_db = 0;
  sd_g = 0;
  sd_base_31_24 = 0;
}

abbrev pub seg_fault : Segdesc
seg_fault = record seg_null { sd_s = 1; sd_p = 1; sd_db = 1 }

-- `SEG` and `SEG16`
unfoldable pub seg : ℕ → ℕ → ℕ → ℕ → Segdesc
seg type base lim dpl = record {
  sd_lim_15_0 = bit_and (shr lim 12) 0xffff;
  sd_base_15_0 = bit_and base 0xffff;
  sd_base_23_16 = bit_and (shr base 16) 0xff;
  sd_type = type % 2 ^ 4;
  sd_s = 1;
  sd_dpl = dpl % 2 ^ 2;
  sd_p = 1;
  sd_lim_19_16 = shr lim 28 % 2 ^ 4;
  sd_avl = 0;
  sd_rsv1 = 0;
  sd_db = 1;
  sd_g = 1;
  sd_base_31_24 = shr base 24 % 2 ^ 8;
}

unfoldable pub seg16 : ℕ → ℕ → ℕ → ℕ → Segdesc
seg16 type base lim dpl = record {
  sd_lim_15_0 = bit_and lim 0xffff;
  sd_base_15_0 = bit_and base 0xffff;
  sd_base_23_16 = bit_and (shr base 16) 0xff;
  sd_type = type % 2 ^ 4;
  sd_s = 1;
  sd_dpl = dpl % 2 ^ 2;
  sd_p = 1;
  sd_lim_19_16 = shr lim 16 % 2 ^ 4;
  sd_avl = 0;
  sd_rsv1 = 0;
  sd_db = 1;
  sd_g = 0;
  sd_base_31_24 = shr base 24 % 2 ^ 8;
}

-- `.word w`, of a number below 2^16, lowest byte first, and the macro `SEG` of the assembler
abbrev pub word_bytes : ℕ → List ℕ → List ℕ
word_bytes w rest = w % 2 ^ 8 ∷ (w / 2 ^ 8 % 2 ^ 8) ∷ rest

unfoldable pub seg_asm : ℕ → ℕ → ℕ → List ℕ
seg_asm type base lim = word_bytes (bit_and (shr lim 12) 0xffff) (
    word_bytes (bit_and base 0xffff) (
      bit_and (shr base 16) 0xff
      ∷ bit_or 0x90 type
      ∷ bit_or 0xc0 (bit_and (shr lim 28) 0xf)
      ∷ bit_and (shr base 24) 0xff
      ∷ []))

-- `struct Gatedesc`
pub record Gatedesc : Type 0 where
  pub gd_off_15_0 : ℕ
  pub gd_sel : ℕ
  pub gd_args : ℕ
  pub gd_rsv1 : ℕ
  pub gd_type : ℕ
  pub gd_s : ℕ
  pub gd_dpl : ℕ
  pub gd_p : ℕ
  pub gd_off_31_16 : ℕ

abbrev pub gatedesc_bits : Gatedesc → ℕ
gatedesc_bits g =
    g.gd_off_15_0
    + g.gd_sel * 2 ^ 16
    + g.gd_args * 2 ^ 32
    + g.gd_rsv1 * 2 ^ 37
    + g.gd_type * 2 ^ 40
    + g.gd_s * 2 ^ 44
    + g.gd_dpl * 2 ^ 45
    + g.gd_p * 2 ^ 47
    + g.gd_off_31_16 * 2 ^ 48

abbrev pub sts_cg32 : ℕ
sts_cg32 = 0xc

abbrev pub sts_ig32 : ℕ
sts_ig32 = 0xe

abbrev pub sts_tg32 : ℕ
sts_tg32 = 0xf

-- `SETGATE` and `SETCALLGATE` store every field.
unfoldable pub setgate : Bool → ℕ → ℕ → ℕ → Gatedesc → Gatedesc
setgate istrap sel off dpl gate = record gate {
  gd_off_15_0 = bit_and off 0xffff;
  gd_sel = sel % 2 ^ 16;
  gd_args = 0;
  gd_rsv1 = 0;
  gd_type = if istrap then sts_tg32 else sts_ig32;
  gd_s = 0;
  gd_dpl = dpl % 2 ^ 2;
  gd_p = 1;
  gd_off_31_16 = shr off 16 % 2 ^ 16;
}

unfoldable pub setcallgate : ℕ → ℕ → ℕ → Gatedesc → Gatedesc
setcallgate sel off dpl gate = record gate {
  gd_off_15_0 = bit_and off 0xffff;
  gd_sel = sel % 2 ^ 16;
  gd_args = 0;
  gd_rsv1 = 0;
  gd_type = sts_cg32;
  gd_s = 0;
  gd_dpl = dpl % 2 ^ 2;
  gd_p = 1;
  gd_off_31_16 = shr off 16 % 2 ^ 16;
}
