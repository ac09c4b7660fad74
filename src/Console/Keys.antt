-- ===== src/Console/Keys.antt =====
-- The keyboard driver of kern/console.c: scan codes, modifiers and the character maps.
use os.Base.{
  ℕ, ◌+◌, ◌-◌, ◌^◌, Bool, ◌&&◌, not, List, [], ◌∷◌, ◌++◌, get_or, bit_and, bit_or, bit_xor, ltb,
  leb, ◌==◌, if◌then◌else◌,
}

abbrev pub shift_key : ℕ
shift_key = 0x01

abbrev pub ctl : ℕ
ctl = 0x02

abbrev pub alt : ℕ
alt = 0x04

abbrev pub capslock : ℕ
capslock = 0x08

abbrev pub numlock : ℕ
numlock = 0x10

abbrev pub scrolllock : ℕ
scrolllock = 0x20

abbrev pub e0esc : ℕ
e0esc = 0x40

abbrev pub shiftcode : ℕ → ℕ
shiftcode c =
    if c == 0x1d
    then ctl
    else if c == 0x2a
    then shift_key
    else if c == 0x36
    then shift_key
    else if c == 0x38
    then alt
    else if c == 0x9d
    then ctl
    else if c == 0xb8
    then alt
    else 0

abbrev pub togglecode : ℕ → ℕ
togglecode c =
    if c == 0x3a
    then capslock
    else if c == 0x45
    then numlock
    else if c == 0x46
    then scrolllock
    else 0

abbrev pub key_del : ℕ
key_del = 0xe9

-- The rows of eight that the maps list, and the cursor keys, which they share.
abbrev pub normal_rows : List ℕ
normal_rows =
    (0 ∷ 0x1b ∷ 49 ∷ 50 ∷ 51 ∷ 52 ∷ 53 ∷ 54 ∷ [])
    ++ (55 ∷ 56 ∷ 57 ∷ 48 ∷ 45 ∷ 61 ∷ 8 ∷ 9 ∷ [])
    ++ (113 ∷ 119 ∷ 101 ∷ 114 ∷ 116 ∷ 121 ∷ 117 ∷ 105 ∷ [])
    ++ (111 ∷ 112 ∷ 91 ∷ 93 ∷ 10 ∷ 0 ∷ 97 ∷ 115 ∷ [])
    ++ (100 ∷ 102 ∷ 103 ∷ 104 ∷ 106 ∷ 107 ∷ 108 ∷ 59 ∷ [])
    ++ (39 ∷ 96 ∷ 0 ∷ 92 ∷ 122 ∷ 120 ∷ 99 ∷ 118 ∷ [])
    ++ (98 ∷ 110 ∷ 109 ∷ 44 ∷ 46 ∷ 47 ∷ 0 ∷ 42 ∷ [])
    ++ (0 ∷ 32 ∷ 0 ∷ 0 ∷ 0 ∷ 0 ∷ 0 ∷ 0 ∷ [])
    ++ (0 ∷ 0 ∷ 0 ∷ 0 ∷ 0 ∷ 0 ∷ 0 ∷ 55 ∷ [])
    ++ (56 ∷ 57 ∷ 45 ∷ 52 ∷ 53 ∷ 54 ∷ 43 ∷ 49 ∷ [])
    ++ (50 ∷ 51 ∷ 48 ∷ 46 ∷ 0 ∷ 0 ∷ 0 ∷ 0 ∷ [])

abbrev pub shift_rows : List ℕ
shift_rows =
    (0 ∷ 27 ∷ 33 ∷ 64 ∷ 35 ∷ 36 ∷ 37 ∷ 94 ∷ [])
    ++ (38 ∷ 42 ∷ 40 ∷ 41 ∷ 95 ∷ 43 ∷ 8 ∷ 9 ∷ [])
    ++ (81 ∷ 87 ∷ 69 ∷ 82 ∷ 84 ∷ 89 ∷ 85 ∷ 73 ∷ [])
    ++ (79 ∷ 80 ∷ 123 ∷ 125 ∷ 10 ∷ 0 ∷ 65 ∷ 83 ∷ [])
    ++ (68 ∷ 70 ∷ 71 ∷ 72 ∷ 74 ∷ 75 ∷ 76 ∷ 58 ∷ [])
    ++ (34 ∷ 126 ∷ 0 ∷ 124 ∷ 90 ∷ 88 ∷ 67 ∷ 86 ∷ [])
    ++ (66 ∷ 78 ∷ 77 ∷ 60 ∷ 62 ∷ 63 ∷ 0 ∷ 42 ∷ [])
    ++ (0 ∷ 32 ∷ 0 ∷ 0 ∷ 0 ∷ 0 ∷ 0 ∷ 0 ∷ [])
    ++ (0 ∷ 0 ∷ 0 ∷ 0 ∷ 0 ∷ 0 ∷ 0 ∷ 55 ∷ [])
    ++ (56 ∷ 57 ∷ 45 ∷ 52 ∷ 53 ∷ 54 ∷ 43 ∷ 49 ∷ [])
    ++ (50 ∷ 51 ∷ 48 ∷ 46 ∷ 0 ∷ 0 ∷ 0 ∷ 0 ∷ [])

abbrev pub ctl_rows : List ℕ
ctl_rows =
    (0 ∷ 0 ∷ 0 ∷ 0 ∷ 0 ∷ 0 ∷ 0 ∷ 0 ∷ [])
    ++ (0 ∷ 0 ∷ 0 ∷ 0 ∷ 0 ∷ 0 ∷ 0 ∷ 0 ∷ [])
    ++ (17 ∷ 23 ∷ 5 ∷ 18 ∷ 20 ∷ 25 ∷ 21 ∷ 9 ∷ [])
    ++ (15 ∷ 16 ∷ 0 ∷ 0 ∷ 13 ∷ 0 ∷ 1 ∷ 19 ∷ [])
    ++ (4 ∷ 6 ∷ 7 ∷ 8 ∷ 10 ∷ 11 ∷ 12 ∷ 0 ∷ [])
    ++ (0 ∷ 0 ∷ 0 ∷ 28 ∷ 26 ∷ 24 ∷ 3 ∷ 22 ∷ [])
    ++ (2 ∷ 14 ∷ 13 ∷ 0 ∷ 0 ∷ 239 ∷ 0 ∷ 0 ∷ [])

abbrev pub cursor_key : ℕ → ℕ
cursor_key c =
    if c == 0xc8
    then 0xe2
    else if c == 0xc9
    then 0xe6
    else if c == 0xcb
    then 0xe4
    else if c == 0xcd
    then 0xe5
    else if c == 0xcf
    then 0xe1
    else if c == 0xd0
    then 0xe3
    else if c == 0xd1
    then 0xe7
    else if c == 0xd2
    then 0xe8
    else if c == 0xd3
    then key_del
    else 0

abbrev pub keypad : ℕ → ℕ
keypad c =
    if c == 0xc7 then 0xe0 else if c == 0x9c then 10 else if c == 0xb5 then 47 else cursor_key c

abbrev pub normalmap : ℕ → ℕ
normalmap c = if ltb c 0x58 then get_or normal_rows c 0 else keypad c

abbrev pub shiftmap : ℕ → ℕ
shiftmap c = if ltb c 0x58 then get_or shift_rows c 0 else keypad c

abbrev pub ctlmap : ℕ → ℕ
ctlmap c =
    if ltb c 0x38
    then get_or ctl_rows c 0
    else if c == 0x97
    then 0xe0
    else if c == 0xb5
    then 239
    else cursor_key c

abbrev pub charcode : ℕ → ℕ → ℕ
charcode m c = if m == 0 then normalmap c else if m == 1 then shiftmap c else ctlmap c

-- `~m`, of an 8-bit mask in a 32-bit word
abbrev pub complement : ℕ → ℕ
complement m = 2 ^ 32 - 1 - m

abbrev pub swap_case : ℕ → ℕ
swap_case c = if leb 97 c && leb c 122 then c - 32 else if leb 65 c && leb c 90 then c + 32 else c

-- What `kbd_proc_data` does with a scan code: the character, or 0 if there is none yet, and the
-- new `shift`.
unfoldable pub press : ℕ → ℕ → ℕ × ℕ
press shift code =
    let shift' = bit_xor (bit_or shift (shiftcode code)) (togglecode code) in
    let c = charcode (bit_and shift' (bit_or ctl shift_key)) code in
    (if bit_and shift' capslock == 0 then c else swap_case c, shift')

unfoldable pub release : ℕ → ℕ → ℕ
release shift code =
    let key = if bit_and shift e0esc == 0 then bit_and code 0x7f else code in
    bit_and shift (complement (bit_or (shiftcode key) e0esc))

unfoldable pub scan : ℕ → ℕ → ℕ × ℕ
scan shift code =
    if code == 0xe0
    then (0, bit_or shift e0esc)
    else if not (bit_and code 0x80 == 0)
    then (0, release shift code)
    else if not (bit_and shift e0esc == 0)
    then press (bit_and shift (complement e0esc)) (bit_or code 0x80)
    else press shift code

-- Ctrl-Alt-Del.
abbrev pub reboots : ℕ × ℕ → Bool
reboots (c, shift) = (bit_and (complement shift) (bit_or ctl alt) == 0) && (c == key_del)
