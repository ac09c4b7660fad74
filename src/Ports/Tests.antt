-- ===== src/Ports/Tests.antt =====
-- Devices in the small, one for each group of laws, and the theorems used on them.
mod Lines
mod Board
mod Video
use os.Base.{ℕ, ◌-◌, ◌%◌, ◌≡◌, refl, ◌==◌, if◌then◌else◌, arith, update}
use os.Pmap.Boot.{nvram_read}
use os.Ports.{Bus, io_rtc, port_nvram_read}
use os.Ports.Indexed.{IsClockChip, port_nvram_read-nvram_read}

-- A clock chip
abbrev Chip : Type 0
Chip = ℕ × (ℕ → ℕ)

abbrev clock : Bus Chip
clock = record {
  inb = λ p s. (s.1 s.0 % 256, s);
  outb = λ p v s. if p == io_rtc then (v, s.1) else (s.0, update s.1 s.0 v);
  load = λ a s. (0, s);
  store = λ a v s. s;
}

abbrev clock_cells : ℕ → Chip → ℕ
clock_cells i s = s.1 i % 256

abbrev clock_selected : Chip → ℕ
clock_selected s = s.0

clock-IsClockChip : IsClockChip clock clock_cells clock_selected
clock-IsClockChip = record {
  byte = λ i s. omega arith;
  selects = λ r s l u. refl;
  select_keeps = λ i r s l u. refl;
  reads = λ s l u. refl;
  read_keeps = λ i s l u. refl;
  writes = λ i v s l u w. ground arith;
}

abbrev chip : Chip
chip = (0, λ i. if i == 0x15 then 0x80 else if i == 0x16 then 2 else 7)

port_nvram_read-nvram_read_example :
    ((port_nvram_read clock 0x15 chip).0 ≡ nvram_read (λ i. clock_cells i chip) 0x15)
    × (clock_cells 0x34 (port_nvram_read clock 0x15 chip).1 ≡ clock_cells 0x34 chip)
port_nvram_read-nvram_read_example =
    port_nvram_read-nvram_read clock clock_cells clock_selected clock-IsClockChip 0x15 0x34 chip
      (omega arith) (omega arith) (omega arith) (omega arith)
