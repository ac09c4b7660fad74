-- ===== src/Ports/Tests/Lines.antt =====
-- The serial port and the printer.
use os.Base.{
  ℕ, ◌+◌, ◌-◌, ◌*◌, ◌≡◌, refl, not, true, List, [], ◌∷◌, ◌==◌, if◌then◌else◌, arith, update,
}
use os.Console.Screen.{Output}
use os.Ports.{Bus, com1, serial_init}
use os.Ports.Serial.{register, IsUart, serial_init-IsUart}

-- A serial port and a printer that lose what comes while they are busy; time passes when a status
-- is read.
pub record Paper : Type 0 where
  pub line : List ℕ
  pub page : List ℕ
  pub held : ℕ
  pub line_left : ℕ
  pub page_left : ℕ

abbrev busy_bus : Bus Paper
busy_bus = record {
  inb = λ p s.
      if p == 0x3fd
      then (if s.line_left == 0 then 0x20 else 0, record s { line_left = s.line_left - 1 })
      else if p == 0x379
      then (if s.page_left == 0 then 0x80 else 0, record s { page_left = s.page_left - 1 })
      else (0, s);
  outb = λ p v s.
      if p == com1
      then (if s.line_left == 0
          then record s { line = v ∷ s.line; line_left = 100 }
          else record s { line_left = 100 })
      else if not (s.page_left == 0)
      then s
      else if p == 0x378
      then record s { held = v }
      else if v == 0x0d
      then record s { page = s.held ∷ s.page }
      else s;
  load = λ a s. (0, s);
  store = λ a v s. s;
}

abbrev paper : Paper
paper = record { line = 7 ∷ []; page = []; held = 0; line_left = 40; page_left = 3 }

abbrev blank : Output
blank = record { serial = 7 ∷ []; parallel = []; crt_buf = λ _. 0; crt_pos = 0; cursor = 0 }

-- A serial port by its registers, whose divisor was left shown
abbrev uart_bus : Bus (ℕ → ℕ)
uart_bus = record {
  inb = λ p s. (if p == com1 + 5 then 0x60 else 0, s);
  outb = λ p v s. update s (register (p - com1) (s 3)) v;
  load = λ a s. (0, s);
  store = λ a v s. s;
}

abbrev uart_cells : ℕ → (ℕ → ℕ) → ℕ
uart_cells i s = s i

updated : (s : ℕ → ℕ) (r v i : ℕ) → update s r v i ≡ (if i == r then v else s i)
updated s r v i = ground arith

registers-IsUart : IsUart uart_bus uart_cells (λ s. 0x60)
registers-IsUart = record {
  writes = λ i k v s l.
      let same : com1 + k - com1 ≡ k = omega arith in rw same (updated s (register k (s 3)) v i);
  reads = λ i k s l. refl;
  status_read = λ s. refl;
  status_keeps = λ k v s r l. refl;
}

abbrev uart : ℕ → ℕ
uart i = 0xff

serial_init-IsUart_example :
    ((serial_init uart_bus uart).0 ≡ true)
    × (uart_cells 8 (serial_init uart_bus uart).1 + 256 * uart_cells 9 (serial_init uart_bus uart).1
        ≡ 12)
    × (uart_cells 3 (serial_init uart_bus uart).1 ≡ 3)
    × (uart_cells 2 (serial_init uart_bus uart).1 ≡ 0)
    × (uart_cells 4 (serial_init uart_bus uart).1 ≡ 0)
    × (uart_cells 1 (serial_init uart_bus uart).1 ≡ 1)
serial_init-IsUart_example =
    serial_init-IsUart uart_bus uart_cells (λ s. 0x60) registers-IsUart uart
