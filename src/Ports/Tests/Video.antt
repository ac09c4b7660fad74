-- ===== src/Ports/Tests/Video.antt =====
-- A machine with the colour display, and one without it.
use os.Base.{
  ◌||◌, ◌⊎◌, ℕ, ◌+◌, ◌-◌, ◌*◌, ◌%◌, ◌<◌, ◌≡◌, refl, Bool, true, false, ◌==◌, if◌then◌else◌, arith,
  update,
}
use os.Ports.{Bus, Statics, mono_base, cga_base, cga_buf, cga_init}
use os.Mmu.{kernbase}
use os.Ports.Screen.{IsVideo, cga_init-IsVideo}

-- The tested cell of the display, and the registers of the two displays
pub record Card : Type 0 where
  pub first_cell : ℕ
  pub index : ℕ → ℕ
  pub registers : ℕ → ℕ → ℕ

abbrev is_index : ℕ → Bool
is_index p = (p == 0x3d4) || (p == 0x3b4)

-- Without the colour display an address of it reads as all ones.
abbrev card_bus : Bool → Bus Card
card_bus colour = record {
  inb = λ p s. (s.registers (p - 1) (s.index (p - 1)) % 256, s);
  outb = λ p v s. record s {
    index = if is_index p then update s.index p v else s.index;
    registers =
        if is_index p
        then s.registers
        else update s.registers (p - 1) (update (s.registers (p - 1)) (s.index (p - 1)) v);
  };
  load = λ a s. (if colour then s.first_cell else 0xffff, s);
  store = λ a v s. record s { first_cell = v };
}

abbrev card_cells : ℕ → ℕ → Card → ℕ
card_cells base i s = s.registers base i % 256

abbrev card_index : ℕ → Card → ℕ
card_index base s = s.index base

stored :
    (s : ℕ → ℕ) (r v i : ℕ) → v < 256 → update s r v i % 256 ≡ (if i == r then v else s i % 256)
stored s r v i h = ground arith

card-IsVideo :
    (colour : Bool) → IsVideo (card_bus colour) colour (λ s. s.first_cell) card_cells card_index
card-IsVideo colour = record {
  loads = λ e s. rw e refl;
  load_keeps = λ s. refl;
  stores = λ e v s. refl;
  absent = λ e s h. ground (arith, e, h);
  colour = record {
    byte = λ i s. omega arith;
    selects = λ r s l u. refl;
    select_keeps = λ i r s l u. refl;
    reads = λ s l u. refl;
    read_keeps = λ i s l u. refl;
    writes = λ i v s l u w. stored (s.registers cga_base) (s.index cga_base) v i w;
  };
  mono = record {
    byte = λ i s. omega arith;
    selects = λ r s l u. refl;
    select_keeps = λ i r s l u. refl;
    reads = λ s l u. refl;
    read_keeps = λ i s l u. refl;
    writes = λ i v s l u w. stored (s.registers mono_base) (s.index mono_base) v i w;
  };
  load_display = λ base i s. refl;
  store_display = λ base i v s. refl;
  display_cell = λ base v s. (refl, refl);
}

abbrev card : Card
card = record { first_cell = 0x0741; index = λ _. 0; registers = λ base i. i }

abbrev unset : Statics
unset = record { addr_6845 = 0; crt_buf = 0; crt_pos = 0; serial_exists = false }

colour_found :
    ((cga_init (card_bus true) unset card).0.addr_6845 ≡ cga_base)
    × ((cga_init (card_bus true) unset card).0.crt_buf ≡ kernbase + cga_buf)
    × ((cga_init (card_bus true) unset card).0.crt_pos ≡ 14 * 256 + 15)
    × ((true ≡ false) ⊎ ((cga_init (card_bus true) unset card).1.first_cell ≡ 0x0741))
colour_found =
    cga_init-IsVideo (card_bus true) true (λ s. s.first_cell) card_cells card_index
      (card-IsVideo true) unset card
