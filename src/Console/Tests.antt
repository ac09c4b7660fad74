-- ===== src/Console/Tests.antt =====
-- Uses of the theorems on kern/console.c.
use os.Base.{◌≡◌, refl, true, false, some, [], ◌∷◌, arith}
use os.Console.Keys.{scan, press, release}
use os.Console.Input.{Ring, Devices, key, mouse, cons_getc}
use os.Console.Queue.{IsQueue, drained, after_keys, cons_getc-IsQueue}
use os.Console.Getchar.{
  Arrival, getchar, got, still_waiting, arrive, after, after_all, getchar-first,
}
use os.Console.Screen.{Output, cons_putc}
use os.Console.Scroll.{IsOnScreen, cons_putc-IsOnScreen}

abbrev empty : Ring
empty = record { buf = λ _. 0; rpos = 511; wpos = 511 }

empty-IsQueue : IsQueue empty []
empty-IsQueue = record {
  read_inside = omega arith;
  write_inside = omega arith;
  short = omega arith;
  holds = refl;
}

-- "x" at the serial port; the shift key, the key of "a", and a byte of the mouse at the keyboard.
abbrev devices : Devices
devices = record {
  serial_exists = true;
  received = 120 ∷ [];
  keys = key 0x2a ∷ key 0x1e ∷ mouse ∷ [];
  shift = 0;
  rebooted = false;
}

cons_getc-IsQueue_example :
    (r' : Ring) × (cons_getc devices empty
      ≡ some (120, after_keys (drained devices) devices.keys, r'))
    × IsQueue r' (65 ∷ [])
unfolding scan press release
cons_getc-IsQueue_example = cons_getc-IsQueue devices empty [] empty-IsQueue (omega arith)

abbrev screen : Output
screen = record { serial = []; parallel = []; crt_buf = λ _. 0x0720; crt_pos = 1999; cursor = 1999 }

screen-IsOnScreen : IsOnScreen (λ _. 0x0720) screen
screen-IsOnScreen = record { inside = omega arith; behind = λ i h. refl }

cons_putc-IsOnScreen_example : IsOnScreen (λ _. 0x0720) (cons_putc 10 screen)
cons_putc-IsOnScreen_example = cons_putc-IsOnScreen (λ _. 0x0720) 10 screen screen-IsOnScreen

-- A key goes up; then "x" and "y" come over the serial port, with a key that goes down.
abbrev silent_devices : Devices
silent_devices = record devices { received = []; keys = [] }

abbrev key_up : Arrival
key_up = record { bytes = []; codes = key 0x9e ∷ [] }

abbrev two_bytes : Arrival
two_bytes = record { bytes = 120 ∷ 121 ∷ []; codes = key 0x1e ∷ [] }

getchar-first_example :
    ((r0 : Ring) × (getchar (key_up ∷ []) silent_devices empty
        ≡ still_waiting (after_all (key_up ∷ []) silent_devices) r0))
    × ((r' : Ring) × (getchar (key_up ∷ two_bytes ∷ []) silent_devices empty
          ≡ got 120 (after (arrive two_bytes (after_all (key_up ∷ []) silent_devices))) r' [])
        × IsQueue r' (121 ∷ 97 ∷ []))
unfolding scan press release
getchar-first_example =
    getchar-first (key_up ∷ []) two_bytes [] silent_devices empty 120 (121 ∷ 97 ∷ []) empty-IsQueue
      (refl, tt) refl (omega arith) (omega arith)
