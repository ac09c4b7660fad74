-- ===== src/Terminal/Tests.antt =====
-- "h" from the keyboard, "i" from the serial port, and the enter key.
use os.Base.{◌<◌, ◌≡◌, refl, inl, true, false, [], ◌∷◌, ◌++◌, List, arith}
use os.Console.Keys.{scan, press, release}
use os.Console.Input.{Ring, Devices, key}
use os.Console.Queue.{IsQueue}
use os.Console.Screen.{Output}
use os.Console.Getchar.{Arrival}
use os.Readline.{Line, buflen}
use os.Readline.Edit.{Shows}
use os.Terminal.{line_read, terminal_readline}
use os.Terminal.Stream.{idle, stream}
use os.Terminal.Edited.{put_all, terminal_readline-edit}

abbrev empty : Ring
empty = record { buf = λ _. 0; rpos = 511; wpos = 511 }

empty-IsQueue : IsQueue empty []
empty-IsQueue = record {
  read_inside = omega arith;
  write_inside = omega arith;
  short = omega arith;
  holds = refl;
}

abbrev devices : Devices
devices = record { serial_exists = true; received = []; keys = []; shift = 0; rebooted = false }

abbrev typing : List Arrival
typing =
    record { bytes = []; codes = key 0x23 ∷ key 0xa3 ∷ [] }
    ∷ record { bytes = 105 ∷ []; codes = [] }
    ∷ record { bytes = []; codes = key 0x1c ∷ [] }
    ∷ []

typing-stream : stream typing devices ≡ 104 ∷ 105 ∷ 10 ∷ []
unfolding scan press release
typing-stream = refl

abbrev screen : Output
screen = record { serial = []; parallel = []; crt_buf = λ _. 0x0720; crt_pos = 0; cursor = 0 }

terminal_readline-edit_example :
    (l : Line) × (d' : Devices) × (r' : Ring) × (more : List Arrival) × (terminal_readline
        (typing ++ idle 3)
        (λ _. 7)
        devices
        empty
        screen
      ≡ line_read l d' r' (put_all (104 ∷ 105 ∷ 10 ∷ []) screen) more)
    × Shows l.buf l.i (105 ∷ 104 ∷ [])
    × (l.buf l.i ≡ 0)
    × (l.i < buflen)
terminal_readline-edit_example =
    terminal_readline-edit typing 3 (λ _. 7) devices empty screen (104 ∷ 105 ∷ []) 10 empty-IsQueue
      (refl, inl refl) typing-stream (omega arith, (omega arith, (omega arith, tt)))
      (refl, (refl, tt)) refl (omega arith) (omega arith)
