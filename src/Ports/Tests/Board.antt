-- ===== src/Ports/Tests/Board.antt =====
-- The serial port and the keyboard as sources of input.
use os.Base.{
  bit_and, Bool-cases, inl, inr, ℕ, ◌+◌, ◌≡◌, refl, Bool, true, false, not, Option, List, [], ◌∷◌,
  ◌==◌, if◌then◌else◌, arith,
}
use os.Console.Input.{Waiting, key, mouse, Devices, serial_proc_data, kbd_proc_data}
use os.Ports.{Bus, com1, port_serial_proc_data, port_kbd_proc_data}
use os.Ports.Input.{AreInputs, view, is_empty, is_mouse, proc_data-view}

-- A serial port with "x" and a keyboard with Ctrl-Alt-Del, the last key as it is pressed
pub record Desk : Type 0 where
  pub serial : List ℕ
  pub board : List Waiting
  pub off : Bool

abbrev tail : {A : Type 0} → List A → List A
tail [] = []
tail (x ∷ xs) = xs

abbrev head_byte : List ℕ → ℕ
head_byte [] = 0
head_byte (c ∷ cs) = c

abbrev head_code : List Waiting → ℕ
head_code (key code ∷ ks) = code
head_code ks = 0

abbrev board_status : List Waiting → ℕ
board_status [] = 0
board_status (mouse ∷ ks) = 0x21
board_status (key code ∷ ks) = 1

abbrev line_status_of : List ℕ → ℕ
line_status_of [] = 0x60
line_status_of (c ∷ cs) = 0x61

abbrev desk_bus : Bus Desk
desk_bus = record {
  inb = λ p s.
      if p == com1 + 5
      then (line_status_of s.serial, s)
      else if p == com1
      then (head_byte s.serial, record s { serial = tail s.serial })
      else if p == 0x64
      then (board_status s.board, s)
      else if p == 0x60
      then (head_code s.board, record s { board = tail s.board })
      else (0, s);
  outb = λ p v s. if p == 0x92 then record s { off = true } else s;
  load = λ a s. (0, s);
  store = λ a v s. s;
}

line_empty : (cs : List ℕ) → (bit_and (line_status_of cs) 1 == 0) ≡ is_empty cs
line_empty [] = refl
line_empty (c ∷ cs) = refl

board_empty : (ks : List Waiting) → (bit_and (board_status ks) 1 == 0) ≡ is_empty ks
board_empty [] = refl
board_empty (mouse ∷ ks) = refl
board_empty (key code ∷ ks) = refl

board_mouse :
    (ks : List Waiting)
    → is_empty ks ≡ false
    → (bit_and (board_status ks) 0x20 == 0) ≡ not (is_mouse ks)
board_mouse [] e = refl
board_mouse (mouse ∷ ks) e = refl
board_mouse (key code ∷ ks) e = refl

serial_leaves :
    (k : ℕ) (s : Desk)
    → ((desk_bus.inb (com1 + k) s).1.board ≡ s.board) × ((desk_bus.inb (com1 + k) s).1.off ≡ s.off)
serial_leaves k s = elim (Bool-cases (com1 + k == com1 + 5)) [
  | inl status ↦ rw status (refl, refl)
  | inr other ↦ elim (Bool-cases (com1 + k == com1)) [
    | inl data_port ↦ rw (other, data_port) (refl, refl)
    | inr more ↦
        let no_status : (com1 + k == 0x64) ≡ false = ground arith in
        let no_data : (com1 + k == 0x60) ≡ false = ground arith in
        rw (other, more, no_status, no_data) (refl, refl)
  ]
]

desk-AreInputs : AreInputs desk_bus (λ s. s.serial) (λ s. s.board) (λ s. s.off)
desk-AreInputs = record {
  line_status = λ s. line_empty s.serial;
  line_status_keeps = λ s. refl;
  receives = λ c cs s e. rw e (refl, refl);
  key_status = λ s. board_empty s.board;
  mouse_status = λ s e. board_mouse s.board e;
  key_status_keeps = λ s. refl;
  keys_read = λ code ks s e. rw e (refl, refl);
  serial_keys = λ k s. (serial_leaves k s).0;
  serial_rebooted = λ k s. (serial_leaves k s).1;
  status_received = λ s. refl;
  status_rebooted = λ s. refl;
  key_received = λ s. refl;
  key_rebooted = λ s. refl;
  resets = λ s. (refl, refl, refl);
}

abbrev desk : Desk
desk = record { serial = 120 ∷ []; board = key 0xd3 ∷ mouse ∷ []; off = false }

abbrev desk_view : Bool → ℕ → Desk → Devices
desk_view = view desk_bus (λ s. s.serial) (λ s. s.board) (λ s. s.off) desk-AreInputs

proc_data-view_example :
    (Path
      (Option ℕ × Devices)
      (
        (port_serial_proc_data desk_bus desk).0,
        desk_view true 6 (port_serial_proc_data desk_bus desk).1,
      )
      (serial_proc_data (desk_view true 6 desk)))
    × (Path
        (Option ℕ × Devices)
        (
          (port_kbd_proc_data desk_bus 6 desk).0,
          desk_view true
              (port_kbd_proc_data desk_bus 6 desk).1
              (port_kbd_proc_data desk_bus 6 desk).2,
        )
        (kbd_proc_data (desk_view true 6 desk)))
proc_data-view_example =
    proc_data-view desk_bus (λ s. s.serial) (λ s. s.board) (λ s. s.off) desk-AreInputs true 6 desk
