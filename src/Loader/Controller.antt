-- ===== src/Loader/Controller.antt =====
-- `waitdisk` and `readsect` of boot/main.c through the ports of the disk controller.
pub mod Sector
mod Tests
use os.Base.{
  ℕ, zero, suc, ◌+◌, ◌-◌, ◌*◌, ◌/◌, ◌%◌, ◌^◌, true, false, ◌&&◌, Option, none, some, ltb, leb, ◌==◌,
  if◌then◌else◌, bit_and, bit_or, shr,
}
use os.Ports.{Bus}
use os.Loader.{Memory, sectsize}

-- The ports, and the read of a 32-bit word that `insl` repeats.
pub record WideBus (S : Type 0) : Type 0 where
  pub bus : Bus S
  pub inl : ℕ → S → ℕ × S

-- The bytes of a word at `d`, the low one first.
abbrev pub put_word : ℕ → ℕ → Memory → Memory
put_word d w m j = if leb d j && ltb j (d + 4) then w / 2 ^ (8 * (j - d)) % 256 else m j

module _ {S : Type 0} (b : WideBus S) where
  -- `none` is a wait that has used up its rounds.
  unfoldable pub waitdisk : ℕ → S → Option S
  waitdisk zero s = none
  waitdisk (suc fuel) s =
      let (status, s1) = b.bus.inb 0x1f7 s in
      elim (bit_and status 0xc0 == 0x40) [ true ↦ some s1 | false ↦ waitdisk fuel s1 ]

  -- `insl(port, addr, cnt)`
  unfoldable pub insl : ℕ → ℕ → ℕ → S → Memory → S × Memory
  insl port addr zero s m = (s, m)
  insl port addr (suc cnt) s m =
      let (w, s1) = b.inl port s in insl port (addr + 4) cnt s1 (put_word addr w m)

  -- The bytes that are sent between the two waits.
  unfoldable pub send_command : ℕ → S → S
  send_command offset s =
      let s1 = b.bus.outb 0x1f2 1 s in
      let s2 = b.bus.outb 0x1f3 (offset % 2 ^ 8) s1 in
      let s3 = b.bus.outb 0x1f4 (shr offset 8 % 2 ^ 8) s2 in
      let s4 = b.bus.outb 0x1f5 (shr offset 16 % 2 ^ 8) s3 in
      let s5 = b.bus.outb 0x1f6 (bit_or (shr offset 24) 0xe0 % 2 ^ 8) s4 in b.bus.outb 0x1f7 0x20 s5

  unfoldable pub port_readsect : ℕ → ℕ → ℕ → S → Memory → Option (S × Memory)
  port_readsect fuel dst offset s m = elim (waitdisk fuel s) [
    | none ↦ none
    | some s1 ↦ elim (waitdisk fuel (send_command offset s1)) [
      | none ↦ none
      | some s2 ↦ some (insl 0x1f0 dst (sectsize / 4) s2 m)
    ]
  ]
