-- ===== src/Ports/Screen.antt =====
-- `cga_init`: which display there is, and where its cursor stands.
use os.Base.{
  ℕ, ◌+◌, ◌*◌, ◌%◌, ◌^◌, ◌≡◌, ◌≢◌, ◌⊎◌, refl, inl, inr, Bool-cases, Bool, true, false, ◌==◌,
  if◌then◌else◌, arith, ◌∙◌, ne→==,
}
use os.Mmu.{kernbase}
use os.Ports.{Bus, Statics, mono_base, mono_buf, cga_base, cga_buf, read_cursor, probe, cga_init}
use os.Ports.Indexed.{IsDisplay, read_cursor-place}

abbrev pub cell_address : ℕ
cell_address = kernbase + cga_buf

-- The first cell of the memory of the colour display, and the two displays. With that display
-- the cell holds what is stored there, and without it 0xa55a is not read back.
pub record IsVideo {S : Type 0} (b : Bus S) (present : Bool) (cell : S → ℕ) (cells : ℕ → ℕ → S → ℕ)
    (selected : ℕ → S → ℕ) : Type 0 where
  pub loads : present ≡ true → (s : S) → (b.load cell_address s).0 ≡ cell s
  pub load_keeps : (s : S) → cell (b.load cell_address s).1 ≡ cell s
  pub stores : present ≡ true → (v : ℕ) (s : S) → cell (b.store cell_address v s) ≡ v
  pub absent :
      present ≡ false → (s : S) → (b.load cell_address (b.store cell_address 0xa55a s)).0 ≢ 0xa55a
  pub colour : IsDisplay b cga_base (cells cga_base) (selected cga_base)
  pub mono : IsDisplay b mono_base (cells mono_base) (selected mono_base)
  pub load_display : (base i : ℕ) (s : S) → cells base i (b.load cell_address s).1 ≡ cells base i s
  pub store_display :
      (base i v : ℕ) (s : S) → cells base i (b.store cell_address v s) ≡ cells base i s
  pub display_cell :
      (base v : ℕ) (s : S)
      → (cell (b.outb base v s) ≡ cell s) × (cell (b.inb (base + 1) s).1 ≡ cell s)

module _ {S : Type 0} (b : Bus S) (present : Bool) (cell : S → ℕ) (cells : ℕ → ℕ → S → ℕ)
    (selected : ℕ → S → ℕ) (h : IsVideo b present cell cells selected) where
  abbrev pub cursor_place : ℕ → S → ℕ
  cursor_place base s = cells base 14 s * 256 + cells base 15 s

  -- The state in which the cell was tested.
  tested : S → S
  tested s = b.store cell_address 0xa55a (b.load cell_address s).1

  tested_answer : (s : S) → present ≡ true → (b.load cell_address (tested s)).0 ≡ 0xa55a
  unfolding tested
  tested_answer s p = h.loads p (tested s) ∙ h.stores p 0xa55a (b.load cell_address s).1

  read_cursor-cell : (base : ℕ) (s : S) → cell (read_cursor b base s).1 ≡ cell s
  unfolding read_cursor
  read_cursor-cell base s =
      let s1 = b.outb base 14 s in
      let s2 = (b.inb (base + 1) s1).1 in
      let s3 = b.outb base 15 s2 in
      (h.display_cell base 0 s3).1
      ∙ (h.display_cell base 15 s2).0
      ∙ (h.display_cell base 0 s1).1
      ∙ (h.display_cell base 14 s).0

  place_inside :
      (base : ℕ) (s : S)
      → IsDisplay b base (cells base) (selected base)
      → (read_cursor b base s).0 % 2 ^ 16 ≡ cursor_place base s
  place_inside base s d =
      omega
        (arith, read_cursor-place b base (cells base) (selected base) d s, d.byte 14 s, d.byte 15 s)

  absent_answer : (s : S) → present ≡ false → ((b.load cell_address (tested s)).0 == 0xa55a) ≡ false
  unfolding tested
  absent_answer s p =
      ne→== (b.load cell_address (tested s)).0 0xa55a (h.absent p (b.load cell_address s).1)

  tested_display :
      (base i : ℕ) (s : S) → cells base i (b.load cell_address (tested s)).1 ≡ cells base i s
  unfolding tested
  tested_display base i s =
      h.load_display base i (tested s)
      ∙ h.store_display base i 0xa55a (b.load cell_address s).1
      ∙ h.load_display base i s

  -- The state after the test, with the character put back.
  restored : S → S
  restored s = b.store cell_address (b.load cell_address s).0 (b.load cell_address (tested s)).1

  probe-present :
      (s : S) → present ≡ true → probe b s ≡ ((cga_base, kernbase + cga_buf), restored s)
  unfolding probe tested restored
  probe-present s p =
      let same : (b.load cell_address (tested s)).0 ≡ 0xa55a = tested_answer s p in
      let e : ((b.load cell_address (tested s)).0 == 0xa55a) ≡ true = rw same refl in
      rw (probe, e) refl

  probe-absent :
      (s : S)
      → present ≡ false
      → probe b s ≡ ((mono_base, kernbase + mono_buf), (b.load cell_address (tested s)).1)
  unfolding probe tested
  probe-absent s p = rw (probe, absent_answer s p) refl

  restored-cell : (s : S) → present ≡ true → cell (restored s) ≡ cell s
  unfolding restored
  restored-cell s p =
      h.stores p (b.load cell_address s).0 (b.load cell_address (tested s)).1 ∙ h.loads p s

  restored_display : (base i : ℕ) (s : S) → cells base i (restored s) ≡ cells base i s
  unfolding restored
  restored_display base i s =
      h.store_display base i (b.load cell_address s).0 (b.load cell_address (tested s)).1
      ∙ tested_display base i s

  pub cga_init-IsVideo :
      (v : Statics) (s : S)
      → ((cga_init b v s).0.addr_6845 ≡ (if present then cga_base else mono_base))
        × ((cga_init b v s).0.crt_buf
            ≡ (if present then kernbase + cga_buf else kernbase + mono_buf))
        × ((cga_init b v s).0.crt_pos ≡ cursor_place (if present then cga_base else mono_base) s)
        × ((present ≡ false) ⊎ (cell (cga_init b v s).1 ≡ cell s))
  unfolding cga_init
  cga_init-IsVideo v s = elim (Bool-cases present) [
    | inl p ↦
        rw (cga_init, probe-present s p, p)
          (
            refl,
            refl,
            place_inside cga_base (restored s) h.colour
                ∙ rw (restored_display cga_base 14 s, restored_display cga_base 15 s) refl,
            inr (read_cursor-cell cga_base (restored s) ∙ restored-cell s p),
          )
    | inr p ↦
        let t = (b.load cell_address (tested s)).1 in
        rw (cga_init, probe-absent s p, p)
          (
            refl,
            refl,
            place_inside mono_base t h.mono
                ∙ rw (tested_display mono_base 14 s, tested_display mono_base 15 s) refl,
            inl refl,
          )
  ]
