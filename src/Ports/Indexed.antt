-- ===== src/Ports/Indexed.antt =====
-- Devices with an index register and a data register: the clock chip of kern/kclock.c and the
-- cursor of the display in kern/console.c.
use os.Base.{
  ℕ, ◌+◌, ◌*◌, ◌%◌, ◌^◌, ◌≤◌, ◌<◌, ◌≡◌, refl, bit_or, ◌==◌, if◌then◌else◌, shl32, shr, arith, ap,
  ◌∙◌,
}
use os.Base.Bits.{or_split, bit_or-zero, zero-bit_or}
use os.Pmap.Boot.{nvram_read}
use os.Ports.{
  Bus, io_rtc, mc146818_read, mc146818_write, port_nvram_read, port_move_cursor, read_cursor,
}

-- A byte written to `port` selects the cell that `port + 1` reads and writes. This holds of the
-- cells from `lo` up to `hi`; the others may tick or have effects.
pub record IsIndexed {S : Type 0} (b : Bus S) (port lo hi : ℕ) (cells : ℕ → S → ℕ)
    (selected : S → ℕ) : Type 0 where
  pub byte : (i : ℕ) (s : S) → cells i s < 256
  pub selects : (r : ℕ) (s : S) → lo ≤ r → r < hi → selected (b.outb port r s) ≡ r
  pub select_keeps : (i r : ℕ) (s : S) → lo ≤ i → i < hi → cells i (b.outb port r s) ≡ cells i s
  pub reads :
      (s : S) → lo ≤ selected s → selected s < hi → (b.inb (port + 1) s).0 ≡ cells (selected s) s
  pub read_keeps : (i : ℕ) (s : S) → lo ≤ i → i < hi → cells i (b.inb (port + 1) s).1 ≡ cells i s
  pub writes :
      (i v : ℕ) (s : S)
      → lo ≤ i
      → i < hi
      → v < 256
      → cells i (b.outb (port + 1) v s) ≡ (if i == selected s then v else cells i s)

-- The use of such a device: select, then read or write.
module _ {S : Type 0} (b : Bus S) (port lo hi : ℕ) (cells : ℕ → S → ℕ) (selected : S → ℕ)
    (h : IsIndexed b port lo hi cells selected) where
  select-read :
      (r : ℕ) (s : S) → lo ≤ r → r < hi → (b.inb (port + 1) (b.outb port r s)).0 ≡ cells r s
  select-read r s l u =
      let e = h.selects r s l u in
      h.reads (b.outb port r s) (omega (arith, e)) (omega (arith, e))
      ∙ ap (λ k. cells k (b.outb port r s)) e
      ∙ h.select_keeps r r s l u

  select-read_keeps :
      (i r : ℕ) (s : S)
      → lo ≤ i
      → i < hi
      → cells i (b.inb (port + 1) (b.outb port r s)).1 ≡ cells i s
  select-read_keeps i r s l u = h.read_keeps i (b.outb port r s) l u ∙ h.select_keeps i r s l u

  select-write :
      (i r v : ℕ) (s : S)
      → lo ≤ i
      → i < hi
      → lo ≤ r
      → r < hi
      → v < 256
      → cells i (b.outb (port + 1) v (b.outb port r s)) ≡ (if i == r then v else cells i s)
  select-write i r v s li ui lr ur w =
      h.writes i v (b.outb port r s) li ui w
      ∙ rw (h.selects r s lr ur, h.select_keeps i r s li ui) refl

-- The clock chip: its first 14 cells are the time and its status; there are 128.
abbrev pub IsClockChip : {S : Type 0} → Bus S → (ℕ → S → ℕ) → (S → ℕ) → Type 0
IsClockChip b cells selected = IsIndexed b io_rtc 14 128 cells selected

module _ {S : Type 0} (b : Bus S) (cells : ℕ → S → ℕ) (selected : S → ℕ)
    (h : IsClockChip b cells selected) where
  mc146818_read-cells : (r : ℕ) (s : S) → 14 ≤ r → r < 128 → (mc146818_read b r s).0 ≡ cells r s
  unfolding mc146818_read
  mc146818_read-cells r s l u =
      let e : r % 2 ^ 8 ≡ r = omega arith in
      rw (mc146818_read, e) (select-read b io_rtc 14 128 cells selected h r s l u)

  mc146818_read_keeps :
      (i r : ℕ) (s : S) → 14 ≤ i → i < 128 → cells i (mc146818_read b r s).1 ≡ cells i s
  unfolding mc146818_read
  mc146818_read_keeps i r s l u =
      select-read_keeps b io_rtc 14 128 cells selected h i (r % 2 ^ 8) s l u

  -- What `mc146818_write` stores in a cell of the clock chip behind its first 14 is what
  -- `mc146818_read` then returns, cut to a byte; every other such cell reads as before.
  pub mc146818_read-mc146818_write :
      (r q datum : ℕ) (s : S)
      → 14 ≤ r
      → r < 128
      → 14 ≤ q
      → q < 128
      → (mc146818_read b r (mc146818_write b q datum s)).0
        ≡ (if r == q then datum % 256 else (mc146818_read b r s).0)
  unfolding mc146818_write
  mc146818_read-mc146818_write r q datum s lr ur lq uq =
      let e : q % 2 ^ 8 ≡ q = omega arith in
      rw (mc146818_read-cells r s lr ur) (
        mc146818_read-cells r (mc146818_write b q datum s) lr ur
        ∙ rw (mc146818_write, e)
            (select-write b io_rtc 14 128 cells selected h r q (datum % 2 ^ 8) s lr ur lq uq
              (omega arith)))

  -- `nvram_read` through the ports returns the two cells of the clock chip, the first lowest, as
  -- `i386_detect_memory` reads them, and leaves the chip's memory as it was, so that the next
  -- call reads the same chip. All this is of cells behind the first 14.
  pub port_nvram_read-nvram_read :
      (r i : ℕ) (s : S)
      → 14 ≤ r
      → r < 127
      → 14 ≤ i
      → i < 128
      → ((port_nvram_read b r s).0 ≡ nvram_read (λ j. cells j s) r)
        × (cells i (port_nvram_read b r s).1 ≡ cells i s)
  unfolding port_nvram_read nvram_read
  port_nvram_read-nvram_read r i s l u li ui =
      let s1 = (mc146818_read b r s).1 in
      let hi =
        mc146818_read-cells (r + 1) s1 (omega arith) (omega arith)
        ∙ mc146818_read_keeps (r + 1) r s (omega arith) (omega arith) in
      (
        rw (mc146818_read-cells r s l (omega arith), hi) refl,
        mc146818_read_keeps i (r + 1) s1 li ui ∙ mc146818_read_keeps i r s li ui,
      )

or_bytes : (hi lo : ℕ) → hi < 256 → lo < 256 → bit_or (shl32 hi 8) lo ≡ hi * 256 + lo
or_bytes hi lo h l =
    ground (arith, or_split 8 hi 0 0 lo (omega arith) l, bit_or-zero hi, zero-bit_or lo)

-- The display: cells 14 and 15 are the place of the cursor.
abbrev pub IsDisplay : {S : Type 0} → Bus S → ℕ → (ℕ → S → ℕ) → (S → ℕ) → Type 0
IsDisplay b addr cells selected = IsIndexed b addr 14 16 cells selected

module _ {S : Type 0} (b : Bus S) (addr : ℕ) (cells : ℕ → S → ℕ) (selected : S → ℕ)
    (h : IsDisplay b addr cells selected) where
  abbrev place : S → ℕ
  place s = cells 14 s * 256 + cells 15 s

  pub read_cursor-place : (s : S) → ((read_cursor b addr s).0 ≡ place s)
  unfolding read_cursor
  read_cursor-place s =
      let s1 = (b.inb (addr + 1) (b.outb addr 14 s)).1 in
      let e0 = select-read b addr 14 16 cells selected h 14 s (omega arith) (omega arith) in
      let e1 =
        select-read b addr 14 16 cells selected h 15 s1 (omega arith) (omega arith)
        ∙ select-read_keeps b addr 14 16 cells selected h 15 14 s (omega arith) (omega arith) in
      rw (e0, e1) (or_bytes (cells 14 s) (cells 15 s) (h.byte 14 s) (h.byte 15 s))

  pub port_move_cursor-place :
      (pos : ℕ) (s : S) → pos < 2 ^ 16 → place (port_move_cursor b addr pos s) ≡ pos
  unfolding port_move_cursor
  port_move_cursor-place pos s p =
      let s1 = b.outb (addr + 1) (shr pos 8 % 2 ^ 8) (b.outb addr 14 s) in
      let high =
        select-write b addr 14 16 cells selected h 14 15 (pos % 2 ^ 8) s1 (omega arith)
          (omega arith) (omega arith) (omega arith) (omega arith) in
      let high' =
        select-write b addr 14 16 cells selected h 14 14 (shr pos 8 % 2 ^ 8) s (omega arith)
          (omega arith) (omega arith) (omega arith) (omega arith) in
      let low =
        select-write b addr 14 16 cells selected h 15 15 (pos % 2 ^ 8) s1 (omega arith)
          (omega arith) (omega arith) (omega arith) (omega arith) in
      omega (arith, high, high', low)

  -- Where `cga_putc` puts the cursor, for a position of 16 bits, is where `cga_init` finds it.
  pub read_cursor-port_move_cursor :
      (pos : ℕ) (s : S)
      → pos < 2 ^ 16
      → (read_cursor b addr (port_move_cursor b addr pos s)).0 ≡ pos
  read_cursor-port_move_cursor pos s p =
      read_cursor-place (port_move_cursor b addr pos s) ∙ port_move_cursor-place pos s p
