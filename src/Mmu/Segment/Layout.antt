-- ===== src/Mmu/Segment/Layout.antt =====
-- What the processor reads in a descriptor: its address, its limit and its other fields.
use os.Base.{
  ℕ, ◌+◌, ◌*◌, ◌/◌, ◌%◌, ◌^◌, ◌<◌, ◌≡◌, Bool, true, false, List, [], ◌∷◌, ◌==◌, if◌then◌else◌,
  bit_and, bit_or, shr, arith, ap,
}
use os.Base.Bits.{and_ones, and_split, bit_and-zero, or_split, zero-bit_or}
use os.Mmu.Segment.{
  segdesc_bits, seg, seg16, seg_asm, Gatedesc, gatedesc_bits, setgate, setcallgate, sts_cg32,
  sts_ig32, sts_tg32,
}

-- `a & 0xf`, `a & 0xff` and `a & 0xffff`
and_half_byte : (a : ℕ) → bit_and a 0xf ≡ a % 16
and_half_byte a = ground (
  arith,
  and_split 4 (a / 16) 0 (a % 16) 0xf (omega arith) (omega arith),
  bit_and-zero (a / 16),
  and_ones 4 (a % 16) (omega arith),
)

and_byte : (a : ℕ) → bit_and a 0xff ≡ a % 256
and_byte a = ground (
  arith,
  and_split 8 (a / 256) 0 (a % 256) 0xff (omega arith) (omega arith),
  bit_and-zero (a / 256),
  and_ones 8 (a % 256) (omega arith),
)

and_half_word : (a : ℕ) → bit_and a 0xffff ≡ a % 65536
and_half_word a = ground (
  arith,
  and_split 16 (a / 65536) 0 (a % 65536) 0xffff (omega arith) (omega arith),
  bit_and-zero (a / 65536),
  and_ones 16 (a % 65536) (omega arith),
)

or_type : (t : ℕ) → t < 16 → bit_or 0x90 t ≡ 0x90 + t
or_type t h = ground (arith, or_split 4 9 0 0 t (omega arith) h, zero-bit_or t)

or_limit : (t : ℕ) → t < 16 → bit_or 0xc0 t ≡ 0xc0 + t
or_limit t h = ground (arith, or_split 4 12 0 0 t (omega arith) h, zero-bit_or t)

-- Bits `lo` up to `lo + width` of a descriptor.
abbrev pub field : ℕ → ℕ → ℕ → ℕ
field lo width bits = bits / 2 ^ lo % 2 ^ width

-- The layout of the Intel manuals. With the granularity bit the limit counts pages.
abbrev pub segment_base : ℕ → ℕ
segment_base bits = field 16 16 bits + field 32 8 bits * 2 ^ 16 + field 56 8 bits * 2 ^ 24

abbrev pub segment_limit : ℕ → ℕ
segment_limit bits =
    let limit = field 0 16 bits + field 48 4 bits * 2 ^ 16 in
    if field 55 1 bits == 0 then limit else limit * 4096 + 4095

abbrev pub gate_offset : ℕ → ℕ
gate_offset bits = field 0 16 bits + field 48 16 bits * 2 ^ 16

-- Type, application or system, privilege, and present
abbrev pub HasAccess : ℕ → ℕ → ℕ → ℕ → Type 0
HasAccess bits type s dpl =
    field 40 4 bits ≡ type × field 44 1 bits ≡ s × field 45 2 bits ≡ dpl × field 47 1 bits ≡ 1

-- Offset, selector, number of arguments, type and privilege of a gate
abbrev pub IsGate : ℕ → ℕ → ℕ → ℕ → ℕ → Type 0
IsGate bits type sel off dpl =
    gate_offset bits ≡ off
    × field 16 16 bits ≡ sel
    × field 32 8 bits ≡ 0
    × HasAccess bits type 0 dpl

abbrev pub bytes : ℕ → List ℕ
bytes bits =
    field 0 8 bits
    ∷ field 8 8 bits
    ∷ field 16 8 bits
    ∷ field 24 8 bits
    ∷ field 32 8 bits
    ∷ field 40 8 bits
    ∷ field 48 8 bits
    ∷ field 56 8 bits
    ∷ []

list8 :
    {a0 a1 a2 a3 a4 a5 a6 a7 b0 b1 b2 b3 b4 b5 b6 b7 : ℕ}
    → a0 ≡ b0
    → a1 ≡ b1
    → a2 ≡ b2
    → a3 ≡ b3
    → a4 ≡ b4
    → a5 ≡ b5
    → a6 ≡ b6
    → a7 ≡ b7
    → Path
        (List ℕ)
        (a0 ∷ a1 ∷ a2 ∷ a3 ∷ a4 ∷ a5 ∷ a6 ∷ a7 ∷ [])
        (b0 ∷ b1 ∷ b2 ∷ b3 ∷ b4 ∷ b5 ∷ b6 ∷ b7 ∷ [])
list8 e0 e1 e2 e3 e4 e5 e6 e7 = λ i. e0 i ∷ e1 i ∷ e2 i ∷ e3 i ∷ e4 i ∷ e5 i ∷ e6 i ∷ e7 i ∷ []

module _ (type base lim dpl : ℕ) (t : type < 16) (b : base < 2 ^ 32) (l : lim < 2 ^ 32)
    (d : dpl < 4) where
  -- The number that `SEG` makes.
  seg-bits :
      segdesc_bits (seg type base lim dpl)
      ≡ lim / 4096 % 65536
        + base % 16777216 * 65536
        + type * 2 ^ 40
        + 2 ^ 44
        + dpl * 2 ^ 45
        + 2 ^ 47
        + lim / 2 ^ 28 * 2 ^ 48
        + 2 ^ 54
        + 2 ^ 55
        + base / 16777216 * 2 ^ 56
  unfolding seg
  seg-bits = omega (arith, and_half_word (lim / 4096), and_half_word base, and_byte (base / 65536))

  seg-granular : (field 55 1 (segdesc_bits (seg type base lim dpl)) == 0) ≡ false
  seg-granular =
      ap (λ g. g == 0) {x = field 55 1 (segdesc_bits (seg type base lim dpl))} {y = 1}
        (omega (arith, seg-bits))

  -- `SEG` makes a present application segment of the type and the privilege asked for, which
  -- starts at `base` and ends with the page that `lim` is in; types have 4 bits, privileges 2.
  pub seg_lem :
      segment_base (segdesc_bits (seg type base lim dpl)) ≡ base
      × segment_limit (segdesc_bits (seg type base lim dpl)) ≡ lim / 4096 * 4096 + 4095
      × HasAccess (segdesc_bits (seg type base lim dpl)) type 1 dpl
  seg_lem =
      (omega (arith, seg-bits), rw seg-granular (omega (arith, seg-bits)), omega (arith, seg-bits))

  -- The number that `SEG16` makes.
  seg16-bits :
      lim < 2 ^ 20
      → segdesc_bits (seg16 type base lim dpl)
        ≡ lim % 65536
          + base % 16777216 * 65536
          + type * 2 ^ 40
          + 2 ^ 44
          + dpl * 2 ^ 45
          + 2 ^ 47
          + lim / 65536 * 2 ^ 48
          + 2 ^ 54
          + base / 16777216 * 2 ^ 56
  unfolding seg16
  seg16-bits h = omega (arith, and_half_word lim, and_half_word base, and_byte (base / 65536))

  seg16-bytewise : lim < 2 ^ 20 → (field 55 1 (segdesc_bits (seg16 type base lim dpl)) == 0) ≡ true
  seg16-bytewise h =
      ap (λ g. g == 0) {x = field 55 1 (segdesc_bits (seg16 type base lim dpl))} {y = 0}
        (omega (arith, seg16-bits h))

  -- `SEG16` makes a segment of exactly that limit, if the limit has at most 20 bits.
  pub seg16_lem :
      lim < 2 ^ 20
      → segment_base (segdesc_bits (seg16 type base lim dpl)) ≡ base
        × segment_limit (segdesc_bits (seg16 type base lim dpl)) ≡ lim
        × HasAccess (segdesc_bits (seg16 type base lim dpl)) type 1 dpl
  seg16_lem h = (
    omega (arith, seg16-bits h),
    rw (seg16-bytewise h) (omega (arith, seg16-bits h)),
    omega (arith, seg16-bits h),
  )

-- The macro `SEG` of the assembler lays out the bytes of the descriptor that the macro `SEG` of C
-- makes with privilege 0, for a type of 4 bits and a base and limit of 32.
pub seg-seg_asm :
    (type base lim : ℕ)
    → type < 16
    → base < 2 ^ 32
    → lim < 2 ^ 32
    → bytes (segdesc_bits (seg type base lim 0)) ≡ seg_asm type base lim
unfolding seg_asm
seg-seg_asm type base lim t b l =
    let e = seg-bits type base lim 0 t b l (omega arith) in
    let e1 : bit_and (shr lim 12) 0xffff ≡ lim / 4096 % 65536 = and_half_word (lim / 4096) in
    let e2 : bit_and base 0xffff ≡ base % 65536 = and_half_word base in
    let e3 : bit_and (shr base 16) 0xff ≡ base / 65536 % 256 = and_byte (base / 65536) in
    let e4 : bit_or 0x90 type ≡ 0x90 + type = or_type type t in
    let e5 : bit_and (shr lim 28) 0xf ≡ lim / 2 ^ 28 =
      omega (arith, and_half_byte (lim / 2 ^ 28)) in
    let e6 : bit_and (shr base 24) 0xff ≡ base / 2 ^ 24 = omega (arith, and_byte (base / 2 ^ 24)) in
    let e7 : bit_or 0xc0 (lim / 2 ^ 28) ≡ 0xc0 + lim / 2 ^ 28 =
      or_limit (lim / 2 ^ 28) (omega arith) in
    rw (e1, e2, e3, e4, e5, e6, e7)
      (list8 (omega (arith, e)) (omega (arith, e)) (omega (arith, e)) (omega (arith, e))
        (omega (arith, e)) (omega (arith, e)) (omega (arith, e)) (omega (arith, e)))

module _ (sel off dpl : ℕ) (gate : Gatedesc) (s : sel < 2 ^ 16) (o : off < 2 ^ 32)
    (d : dpl < 4) where
  setgate-bits :
      (istrap : Bool)
      → gatedesc_bits (setgate istrap sel off dpl gate)
        ≡ off % 65536
          + sel * 65536
          + (if istrap then sts_tg32 else sts_ig32) * 2 ^ 40
          + dpl * 2 ^ 45
          + 2 ^ 47
          + off / 65536 * 2 ^ 48
  unfolding setgate
  setgate-bits istrap = omega (arith, and_half_word off)

  setcallgate-bits :
      gatedesc_bits (setcallgate sel off dpl gate)
      ≡ off % 65536 + sel * 65536 + sts_cg32 * 2 ^ 40 + dpl * 2 ^ 45 + 2 ^ 47 + off / 65536 * 2 ^ 48
  unfolding setcallgate
  setcallgate-bits = omega (arith, and_half_word off)

  -- `SETGATE` and `SETCALLGATE` make a present system gate to that selector and offset with that privilege
  -- and no arguments, whatever the gate held; `SETGATE` tells traps from interrupts by the type.
  pub setgate-setcallgate :
      ((istrap : Bool)
        → IsGate
            (gatedesc_bits (setgate istrap sel off dpl gate))
            (if istrap then 0xf else 0xe)
            sel
            off
            dpl)
      × IsGate (gatedesc_bits (setcallgate sel off dpl gate)) 0xc sel off dpl
  setgate-setcallgate = (
    elim [ true ↦ omega (arith, setgate-bits true) | false ↦ omega (arith, setgate-bits false) ],
    omega (arith, setcallgate-bits),
  )
