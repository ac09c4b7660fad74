-- ===== src/Ports/Input.antt =====
-- The input drivers of kern/console.c through the ports, and the devices that they drive: they are
-- the functions of Console/Input, which take what waits at a device from a list.
use os.Base.{
  ℕ, ◌+◌, ◌≡◌, refl, Bool, true, false, not, Option, none, some, List, [], ◌∷◌, bit_and, ◌==◌,
  if◌then◌else◌, ap, ◌∙◌,
}
use os.Console.Keys.{scan, reboots}
use os.Console.Input.{Waiting, key, mouse, Devices, serial_proc_data, kbd_proc_data}
use os.Ports.{
  Bus, com1, com_rx, com_lsr, com_lsr_data, kbstatp, kbdatap, kbs_dib, kbs_terr,
  port_serial_proc_data, port_kbd_proc_data,
}

abbrev pub is_empty : {A : Type 0} → List A → Bool
is_empty [] = true
is_empty (x ∷ xs) = false

abbrev pub is_mouse : List Waiting → Bool
is_mouse (mouse ∷ ks) = true
is_mouse ks = false

-- What waits at the devices, and whether the machine was reset. Bits 0 and 5 of the status of the
-- keyboard controller tell whether a byte waits and whether it is one of the mouse.
pub record AreInputs {S : Type 0} (b : Bus S) (received : S → List ℕ) (keys : S → List Waiting)
    (rebooted : S → Bool) : Type 0 where
  pub line_status :
      (s : S) → (bit_and (b.inb (com1 + com_lsr) s).0 com_lsr_data == 0) ≡ is_empty (received s)
  pub line_status_keeps : (s : S) → received (b.inb (com1 + com_lsr) s).1 ≡ received s
  pub receives :
      (c : ℕ) (cs : List ℕ) (s : S)
      → received s ≡ c ∷ cs
      → ((b.inb (com1 + com_rx) s).0 ≡ c) × (received (b.inb (com1 + com_rx) s).1 ≡ cs)
  pub key_status : (s : S) → (bit_and (b.inb kbstatp s).0 kbs_dib == 0) ≡ is_empty (keys s)
  pub mouse_status :
      (s : S)
      → is_empty (keys s) ≡ false
      → (bit_and (b.inb kbstatp s).0 kbs_terr == 0) ≡ not (is_mouse (keys s))
  pub key_status_keeps : (s : S) → keys (b.inb kbstatp s).1 ≡ keys s
  pub keys_read :
      (code : ℕ) (ks : List Waiting) (s : S)
      → keys s ≡ key code ∷ ks
      → ((b.inb kbdatap s).0 ≡ code) × (keys (b.inb kbdatap s).1 ≡ ks)
  pub serial_keys : (k : ℕ) (s : S) → keys (b.inb (com1 + k) s).1 ≡ keys s
  pub serial_rebooted : (k : ℕ) (s : S) → rebooted (b.inb (com1 + k) s).1 ≡ rebooted s
  pub status_received : (s : S) → received (b.inb kbstatp s).1 ≡ received s
  pub status_rebooted : (s : S) → rebooted (b.inb kbstatp s).1 ≡ rebooted s
  pub key_received : (s : S) → received (b.inb kbdatap s).1 ≡ received s
  pub key_rebooted : (s : S) → rebooted (b.inb kbdatap s).1 ≡ rebooted s
  pub resets :
      (s : S)
      → (rebooted (b.outb 0x92 0x3 s) ≡ true)
        × (keys (b.outb 0x92 0x3 s) ≡ keys s)
        × (received (b.outb 0x92 0x3 s) ≡ received s)

module _ {S : Type 0} (b : Bus S) (received : S → List ℕ) (keys : S → List Waiting)
    (rebooted : S → Bool) (h : AreInputs b received keys rebooted) where
  -- The devices as the lists of what waits at them.
  abbrev pub view : Bool → ℕ → S → Devices
  view exists shift s = record {
    serial_exists = exists;
    received = received s;
    keys = keys s;
    shift = shift;
    rebooted = rebooted s;
  }

  view-cong :
      (exists : Bool) (shift : ℕ) (s : S) (cs : List ℕ) (ks : List Waiting) (r : Bool)
      → received s ≡ cs
      → keys s ≡ ks
      → rebooted s ≡ r
      → view exists shift s
        ≡ record { serial_exists = exists; received = cs; keys = ks; shift = shift; rebooted = r }
  view-cong exists shift s cs ks r e f g = λ i. record {
    serial_exists = exists;
    received = e i;
    keys = f i;
    shift = shift;
    rebooted = g i;
  }

  pub serial-view :
      (exists : Bool) (shift : ℕ) (s : S) (cs : List ℕ)
      → received s ≡ cs
      → Path
          (Option ℕ × Devices)
          ((port_serial_proc_data b s).0, view exists shift (port_serial_proc_data b s).1)
          (serial_proc_data (record {
            serial_exists = exists;
            received = cs;
            keys = keys s;
            shift = shift;
            rebooted = rebooted s;
          }))
  unfolding port_serial_proc_data serial_proc_data
  serial-view exists shift s [] e =
      let s1 = (b.inb (com1 + com_lsr) s).1 in
      let empty : (bit_and (b.inb (com1 + com_lsr) s).0 com_lsr_data == 0) ≡ true =
        h.line_status s ∙ ap is_empty e in
      rw (port_serial_proc_data, empty)
        (ap (λ d. (none, d))
          (view-cong exists shift s1 [] (keys s) (rebooted s) (h.line_status_keeps s ∙ e)
            (h.serial_keys 5 s) (h.serial_rebooted 5 s)))
  serial-view exists shift s (c ∷ cs) e =
      let s1 = (b.inb (com1 + com_lsr) s).1 in
      let s2 = (b.inb (com1 + com_rx) s1).1 in
      let full : (bit_and (b.inb (com1 + com_lsr) s).0 com_lsr_data == 0) ≡ false =
        h.line_status s ∙ ap is_empty e in
      let (got, left) = h.receives c cs s1 (h.line_status_keeps s ∙ e) in
      rw (port_serial_proc_data, full)
        (λ i. (
          some (got i),
          view-cong exists shift s2 cs (keys s) (rebooted s) left
              (h.serial_keys 0 s1 ∙ h.serial_keys 5 s)
              (h.serial_rebooted 0 s1 ∙ h.serial_rebooted 5 s) i,
        ))

  -- The end of `kbd_proc_data`, in the state after the byte was read.
  reset-view :
      (exists : Bool) (shift c shift' : ℕ) (s : S) (cs : List ℕ) (ks : List Waiting) (r : Bool)
      → received s ≡ cs
      → keys s ≡ ks
      → rebooted s ≡ r
      → (reset : Bool)
      → view exists shift' (if reset then b.outb 0x92 0x3 s else s) ≡ record {
        serial_exists = exists;
        received = cs;
        keys = ks;
        shift = shift';
        rebooted = if reset then true else r;
      }
  reset-view exists shift c shift' s cs ks r e f g true =
      let (on, f', e') = h.resets s in
      view-cong exists shift' (b.outb 0x92 0x3 s) cs ks true (e' ∙ e) (f' ∙ f) on
  reset-view exists shift c shift' s cs ks r e f g false = view-cong exists shift' s cs ks r e f g

  pub kbd-view :
      (exists : Bool) (shift : ℕ) (s : S) (ks : List Waiting)
      → keys s ≡ ks
      → Path
          (Option ℕ × Devices)
          (
            (port_kbd_proc_data b shift s).0,
            view exists (port_kbd_proc_data b shift s).1 (port_kbd_proc_data b shift s).2,
          )
          (kbd_proc_data (record {
            serial_exists = exists;
            received = received s;
            keys = ks;
            shift = shift;
            rebooted = rebooted s;
          }))
  unfolding port_kbd_proc_data kbd_proc_data
  kbd-view exists shift s [] e =
      let s1 = (b.inb kbstatp s).1 in
      let empty : (bit_and (b.inb kbstatp s).0 kbs_dib == 0) ≡ true =
        h.key_status s ∙ ap is_empty e in
      rw (port_kbd_proc_data, empty)
        (ap (λ d. (none, d))
          (view-cong exists shift s1 (received s) [] (rebooted s) (h.status_received s)
            (h.key_status_keeps s ∙ e) (h.status_rebooted s)))
  kbd-view exists shift s (mouse ∷ ks) e =
      let s1 = (b.inb kbstatp s).1 in
      let full : (bit_and (b.inb kbstatp s).0 kbs_dib == 0) ≡ false =
        h.key_status s ∙ ap is_empty e in
      let other : (bit_and (b.inb kbstatp s).0 kbs_terr == 0) ≡ false =
        h.mouse_status s (ap is_empty e) ∙ ap (λ l. not (is_mouse l)) e in
      rw (port_kbd_proc_data, full, other)
        (ap (λ d. (none, d))
          (view-cong exists shift s1 (received s) (mouse ∷ ks) (rebooted s) (h.status_received s)
            (h.key_status_keeps s ∙ e) (h.status_rebooted s)))
  kbd-view exists shift s (key code ∷ ks) e =
      let s1 = (b.inb kbstatp s).1 in
      let s2 = (b.inb kbdatap s1).1 in
      let full : (bit_and (b.inb kbstatp s).0 kbs_dib == 0) ≡ false =
        h.key_status s ∙ ap is_empty e in
      let plain : (bit_and (b.inb kbstatp s).0 kbs_terr == 0) ≡ true =
        h.mouse_status s (ap is_empty e) ∙ ap (λ l. not (is_mouse l)) e in
      let (got, left) = h.keys_read code ks s1 (h.key_status_keeps s ∙ e) in
      rw (port_kbd_proc_data, full, plain, got)
        (ap (λ d. (some (scan shift code).0, d))
          (reset-view exists shift (scan shift code).0 (scan shift code).1 s2 (received s) ks
            (rebooted s) (h.key_received s1 ∙ h.status_received s) left
            (h.key_rebooted s1 ∙ h.status_rebooted s) (reboots (scan shift code))))

  -- Read through the ports, the devices give `serial_proc_data` and `kbd_proc_data` what waits there
  -- in order, and the two functions do what they do on the lists of what waits: the same result,
  -- modifiers, rest, and reset of the machine.
  pub proc_data-view :
      (exists : Bool) (shift : ℕ) (s : S)
      → (Path
          (Option ℕ × Devices)
          ((port_serial_proc_data b s).0, view exists shift (port_serial_proc_data b s).1)
          (serial_proc_data (view exists shift s)))
        × (Path
            (Option ℕ × Devices)
            (
              (port_kbd_proc_data b shift s).0,
              view exists (port_kbd_proc_data b shift s).1 (port_kbd_proc_data b shift s).2,
            )
            (kbd_proc_data (view exists shift s)))
  proc_data-view exists shift s =
      (serial-view exists shift s (received s) refl, kbd-view exists shift s (keys s) refl)
