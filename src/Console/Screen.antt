-- ===== src/Console/Screen.antt =====
-- Console output: the serial port, the parallel port and the CGA screen.
use os.Base.{
  ℕ, ◌+◌, ◌-◌, ◌*◌, ◌%◌, ◌^◌, List, ◌∷◌, bit_and, bit_or, ltb, leb, ◌==◌, if◌then◌else◌, update,
}

abbrev pub crt_rows : ℕ
crt_rows = 25

abbrev pub crt_cols : ℕ
crt_cols = 80

abbrev pub crt_size : ℕ
crt_size = crt_rows * crt_cols

-- The bytes sent to the serial and to the parallel port, last first; the cells of the screen and
-- the position of the driver, of 16 bits; and the position that the cursor was given.
pub record Output : Type 0 where
  pub serial : List ℕ
  pub parallel : List ℕ
  pub crt_buf : ℕ → ℕ
  pub crt_pos : ℕ
  pub cursor : ℕ

-- The wait for the device reads ports, and gives up after 12800 rounds: the byte is sent either
-- way. So it is for the parallel port.
unfoldable pub serial_putc : ℕ → Output → Output
serial_putc c o = record o { serial = c % 256 ∷ o.serial }

unfoldable pub lpt_putc : ℕ → Output → Output
lpt_putc c o = record o { parallel = c % 256 ∷ o.parallel }

-- `if (!(c & ~0xFF)) c |= 0x0700`
abbrev pub with_attribute : ℕ → ℕ
with_attribute c = if bit_and c 0xffff_ff00 == 0 then bit_or c 0x0700 else c

-- The cases of the `switch` but for the tab.
unfoldable pub put_cell : ℕ → Output → Output
put_cell c o =
    let b = bit_and c 0xff in
    if b == 8
    then if o.crt_pos == 0
      then o
      else (let p = (o.crt_pos + 65535) % 2 ^ 16 in
          record o {
            crt_pos = p;
            crt_buf = update o.crt_buf p (bit_or (bit_and c 0xffff_ff00) 32 % 2 ^ 16);
          })
    else if b == 10
    then (let p = (o.crt_pos + crt_cols) % 2 ^ 16 in record o { crt_pos = p - p % crt_cols })
    else if b == 13
    then record o { crt_pos = o.crt_pos - o.crt_pos % crt_cols }
    else record o {
      crt_buf = update o.crt_buf o.crt_pos (c % 2 ^ 16);
      crt_pos = (o.crt_pos + 1) % 2 ^ 16;
    }

-- The move of the rows by one, and the blank row at the bottom.
abbrev pub scrolled : (ℕ → ℕ) → ℕ → ℕ
scrolled buf i =
    if ltb i (crt_size - crt_cols)
    then buf (i + crt_cols)
    else if ltb i crt_size
    then 0x0720
    else buf i

unfoldable pub scroll : Output → Output
scroll o =
    if leb crt_size o.crt_pos
    then record o { crt_buf = scrolled o.crt_buf; crt_pos = o.crt_pos - crt_cols }
    else o

abbrev pub move_cursor : Output → Output
move_cursor o = record o { cursor = o.crt_pos }

-- `cga_putc` of a character that is no tab.
unfoldable pub cga_plain : ℕ → Output → Output
cga_plain c o = move_cursor (scroll (put_cell (with_attribute c) o))

-- `cons_putc` of a space.
unfoldable pub cons_space : Output → Output
cons_space o = cga_plain 32 (lpt_putc 32 (serial_putc 32 o))

unfoldable pub cga_putc : ℕ → Output → Output
cga_putc c o =
    if bit_and (with_attribute c) 0xff == 9
    then move_cursor (scroll (cons_space (cons_space (cons_space (cons_space (cons_space o))))))
    else cga_plain c o

unfoldable pub cons_putc : ℕ → Output → Output
cons_putc c o = cga_putc c (lpt_putc c (serial_putc c o))

unfoldable pub cputchar : ℕ → Output → Output
cputchar c o = cons_putc c o
