-- ===== src/Console/Input.antt =====
-- Console input: the devices, and the ring `cons` that their interrupts fill.
use os.Base.{
  ℕ, zero, suc, ◌+◌, ◌%◌, Bool, true, Option, none, some, List, [], ◌∷◌, length, ◌==◌,
  if◌then◌else◌, update,
}
use os.Console.Keys.{scan, reboots}

abbrev pub consbufsize : ℕ
consbufsize = 512

pub record Ring : Type 0 where
  pub buf : ℕ → ℕ
  pub rpos : ℕ
  pub wpos : ℕ

-- What the keyboard controller holds: scan codes, and bytes of the mouse or in error.
pub data Waiting : Type 0 where
  key : ℕ → Waiting
  mouse : Waiting

-- The bytes that wait at the serial port, and the state of the keyboard driver.
pub record Devices : Type 0 where
  pub serial_exists : Bool
  pub received : List ℕ
  pub keys : List Waiting
  pub shift : ℕ
  pub rebooted : Bool

abbrev pub Device : Type 0
Device = Devices → Option ℕ × Devices

-- `-1` is `none`.
unfoldable pub serial_proc_data : Device
serial_proc_data d = elim d.received [
  | [] ↦ (none, d)
  | c ∷ cs ↦ (some c, record d { received = cs })
]

abbrev pub typed : Devices → List Waiting → ℕ × ℕ → Option ℕ × Devices
typed d rest (c, shift) = (
  some c,
  record d {
    keys = rest;
    shift = shift;
    rebooted = if reboots (c, shift) then true else d.rebooted;
  },
)

-- A byte of the mouse is not read, so it stays.
unfoldable pub kbd_proc_data : Device
kbd_proc_data d = elim d.keys [
  | [] ↦ (none, d)
  | mouse ∷ _ ↦ (none, d)
  | key code ∷ rest ↦ typed d rest (scan d.shift code)
]

-- `cons.buf[cons.wpos++] = c`, and the wrap.
unfoldable pub stash : ℕ → Ring → Ring
stash c r = record {
  buf = update r.buf r.wpos (c % 256);
  rpos = r.rpos;
  wpos = if r.wpos + 1 == consbufsize then 0 else r.wpos + 1;
}

-- A round of `cons_intr`, whose call of the device has given `-1` or `c`.
abbrev pub round :
    (Devices → Ring → Option (Devices × Ring)) → Ring → Option ℕ × Devices → Option (Devices × Ring)
round go r (none, d) = some (d, r)
round go r (some c, d) = go d (if c == 0 then r else stash c r)

-- `none` is a device that has not run dry within the rounds.
unfoldable pub cons_intr : Device → ℕ → Devices → Ring → Option (Devices × Ring)
cons_intr proc zero d r = none
cons_intr proc (suc fuel) d r = round (cons_intr proc fuel) r (proc d)

unfoldable pub serial_intr : Devices → Ring → Option (Devices × Ring)
serial_intr d r =
    if d.serial_exists then cons_intr serial_proc_data (length d.received + 1) d r else some (d, r)

unfoldable pub kbd_intr : Devices → Ring → Option (Devices × Ring)
kbd_intr d r = cons_intr kbd_proc_data (length d.keys + 1) d r

-- The end of `cons_getc`: the next character, or 0.
unfoldable pub take_next : Ring → ℕ × Ring
take_next r = if r.rpos == r.wpos then (0, r) else (
  r.buf r.rpos,
  record { buf = r.buf; rpos = if r.rpos + 1 == consbufsize then 0 else r.rpos + 1; wpos = r.wpos },
)

abbrev pub with_next : Devices → ℕ × Ring → ℕ × Devices × Ring
with_next d (c, r) = (c, d, r)

abbrev pub poll : Option (Devices × Ring) → Option (Devices × Ring)
poll none = none
poll (some (d, r)) = kbd_intr d r

abbrev pub taken : Option (Devices × Ring) → Option (ℕ × Devices × Ring)
taken none = none
taken (some (d, r)) = some (with_next d (take_next r))

unfoldable pub cons_getc : Devices → Ring → Option (ℕ × Devices × Ring)
cons_getc d r = taken (poll (serial_intr d r))
