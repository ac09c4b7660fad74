-- ===== src/Ports.antt =====
-- inc/x86.h and the code that reaches devices through ports: kern/kclock.c, and the part of
-- kern/console.c below the drivers. The instructions are an interface.
pub mod Indexed
pub mod Serial
pub mod Input
pub mod Screen
mod Tests
use os.Base.{
  ℕ, zero, suc, ◌+◌, ◌-◌, ◌*◌, ◌/◌, ◌%◌, ◌^◌, Bool, true, false, not, Option, none, some, bit_and,
  bit_or, ◌==◌, if◌then◌else◌, shr, shl32,
}
use os.Mmu.{kernbase}
use os.Console.Keys.{scan, reboots}

-- `inb` and `outb`, and a 16-bit load and store through a volatile pointer, on the state `S` of
-- the devices. A load may have an effect on a device too.
pub record Bus (S : Type 0) : Type 0 where
  pub inb : ℕ → S → ℕ × S
  pub outb : ℕ → ℕ → S → S
  pub load : ℕ → S → ℕ × S
  pub store : ℕ → ℕ → S → S

abbrev pub io_rtc : ℕ
io_rtc = 0x070

abbrev pub com1 : ℕ
com1 = 0x3f8

abbrev pub com_rx : ℕ
com_rx = 0

abbrev pub com_tx : ℕ
com_tx = 0

abbrev pub com_dll : ℕ
com_dll = 0

abbrev pub com_dlm : ℕ
com_dlm = 1

abbrev pub com_ier : ℕ
com_ier = 1

abbrev pub com_ier_rdi : ℕ
com_ier_rdi = 0x01

abbrev pub com_iir : ℕ
com_iir = 2

abbrev pub com_fcr : ℕ
com_fcr = 2

abbrev pub com_lcr : ℕ
com_lcr = 3

abbrev pub com_lcr_dlab : ℕ
com_lcr_dlab = 0x80

abbrev pub com_lcr_wlen8 : ℕ
com_lcr_wlen8 = 0x03

abbrev pub com_mcr : ℕ
com_mcr = 4

abbrev pub com_lsr : ℕ
com_lsr = 5

abbrev pub com_lsr_data : ℕ
com_lsr_data = 0x01

abbrev pub com_lsr_txrdy : ℕ
com_lsr_txrdy = 0x20

abbrev pub kbstatp : ℕ
kbstatp = 0x64

abbrev pub kbdatap : ℕ
kbdatap = 0x60

abbrev pub kbs_dib : ℕ
kbs_dib = 0x01

abbrev pub kbs_terr : ℕ
kbs_terr = 0x20

abbrev pub mono_base : ℕ
mono_base = 0x3b4

abbrev pub mono_buf : ℕ
mono_buf = 0xb0000

abbrev pub cga_base : ℕ
cga_base = 0x3d4

abbrev pub cga_buf : ℕ
cga_buf = 0xb8000

-- The statics `addr_6845`, `crt_buf`, `crt_pos` and `serial_exists`
pub record Statics : Type 0 where
  pub addr_6845 : ℕ
  pub crt_buf : ℕ
  pub crt_pos : ℕ
  pub serial_exists : Bool

module _ {S : Type 0} (b : Bus S) where
  unfoldable pub mc146818_read : ℕ → S → ℕ × S
  mc146818_read reg s = b.inb (io_rtc + 1) (b.outb io_rtc (reg % 2 ^ 8) s)

  unfoldable pub mc146818_write : ℕ → ℕ → S → S
  mc146818_write reg datum s = b.outb (io_rtc + 1) (datum % 2 ^ 8) (b.outb io_rtc (reg % 2 ^ 8) s)

  -- `nvram_read`, with the two reads of the chip.
  unfoldable pub port_nvram_read : ℕ → S → ℕ × S
  port_nvram_read r s =
      let (lo, s1) = mc146818_read r s in
      let (hi, s2) = mc146818_read (r + 1) s1 in (bit_or lo (shl32 hi 8), s2)

  unfoldable pub delay : S → S
  delay s = (b.inb 0x84 (b.inb 0x84 (b.inb 0x84 (b.inb 0x84 s).1).1).1).1

  -- The waits of `serial_putc` and `lpt_putc`: `n` rounds are left when the status is read.
  unfoldable pub wait_ready : ℕ → ℕ → ℕ → S → S
  wait_ready port mask zero s = (b.inb port s).1
  wait_ready port mask (suc n) s =
      let (status, s1) = b.inb port s in
      elim (bit_and status mask == 0) [ true ↦ wait_ready port mask n (delay s1) | false ↦ s1 ]

  unfoldable pub port_serial_putc : ℕ → S → S
  port_serial_putc c s =
      b.outb (com1 + com_tx) (c % 2 ^ 8) (wait_ready (com1 + com_lsr) com_lsr_txrdy 12800 s)

  unfoldable pub port_lpt_putc : ℕ → S → S
  port_lpt_putc c s =
      let s1 = wait_ready (0x378 + 1) 0x80 12800 s in
      b.outb (0x378 + 2) 0x08
        (b.outb (0x378 + 2) (bit_or (bit_or 0x08 0x04) 0x01) (b.outb (0x378 + 0) (c % 2 ^ 8) s1))

  -- `-1` is `none`.
  unfoldable pub port_serial_proc_data : S → Option ℕ × S
  port_serial_proc_data s =
      let (status, s1) = b.inb (com1 + com_lsr) s in
      if bit_and status com_lsr_data == 0
      then (none, s1)
      else (let (c, s2) = b.inb (com1 + com_rx) s1 in (some c, s2))

  -- The static `shift` comes and goes with the state. Ctrl-Alt-Del resets the machine.
  unfoldable pub port_kbd_proc_data : ℕ → S → Option ℕ × ℕ × S
  port_kbd_proc_data shift s =
      let (stat, s1) = b.inb kbstatp s in
      if bit_and stat kbs_dib == 0
      then (none, shift, s1)
      else if not (bit_and stat kbs_terr == 0)
      then (none, shift, s1)
      else (let (data_byte, s2) = b.inb kbdatap s1 in
          let (c, shift') = scan shift data_byte in
          (some c, shift', if reboots (c, shift') then b.outb 0x92 0x3 s2 else s2))

  unfoldable pub serial_init : S → Bool × S
  serial_init s =
      let s1 = b.outb (com1 + com_fcr) 0 s in
      let s2 = b.outb (com1 + com_lcr) com_lcr_dlab s1 in
      let s3 = b.outb (com1 + com_dll) (115200 / 9600 % 2 ^ 8) s2 in
      let s4 = b.outb (com1 + com_dlm) 0 s3 in
      let s5 = b.outb (com1 + com_lcr) (bit_and com_lcr_wlen8 0xffff_ff7f) s4 in
      let s6 = b.outb (com1 + com_mcr) 0 s5 in
      let s7 = b.outb (com1 + com_ier) com_ier_rdi s6 in
      let (status, s8) = b.inb (com1 + com_lsr) s7 in
      (not (status == 0xff), (b.inb (com1 + com_rx) (b.inb (com1 + com_iir) s8).1).1)

  -- The end of `cga_putc`
  unfoldable pub port_move_cursor : ℕ → ℕ → S → S
  port_move_cursor addr pos s =
      let s1 = b.outb (addr + 1) (shr pos 8 % 2 ^ 8) (b.outb addr 14 s) in
      b.outb (addr + 1) (pos % 2 ^ 8) (b.outb addr 15 s1)

  -- The middle of `cga_init`
  unfoldable pub read_cursor : ℕ → S → ℕ × S
  read_cursor addr s =
      let (hi, s1) = b.inb (addr + 1) (b.outb addr 14 s) in
      let (lo, s2) = b.inb (addr + 1) (b.outb addr 15 s1) in (bit_or (shl32 hi 8) lo, s2)

  -- The start of `cga_init`: `addr_6845` and `cp`
  unfoldable pub probe : S → (ℕ × ℕ) × S
  probe s =
      let (was, s1) = b.load (kernbase + cga_buf) s in
      let (now, s2) = b.load (kernbase + cga_buf) (b.store (kernbase + cga_buf) 0xa55a s1) in
      if not (now == 0xa55a)
      then ((mono_base, kernbase + mono_buf), s2)
      else ((cga_base, kernbase + cga_buf), b.store (kernbase + cga_buf) was s2)

  unfoldable pub cga_init : Statics → S → Statics × S
  cga_init v s =
      let ((addr, cp), s1) = probe s in
      let (pos, s2) = read_cursor addr s1 in
      (record v { addr_6845 = addr; crt_buf = cp; crt_pos = pos % 2 ^ 16 }, s2)

  -- Whether the message that the serial port does not exist is printed stands last.
  unfoldable pub cons_init : Statics → S → (Statics × S) × Bool
  cons_init v s =
      let (v1, s1) = cga_init v s in
      let (serial, s2) = serial_init s1 in ((record v1 { serial_exists = serial }, s2), not serial)
