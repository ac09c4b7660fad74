-- ===== src/Monitor/Shell.antt =====
-- The loop `monitor` of kern/monitor.c: it reads a line by `readline` and runs it, again and again.
pub mod LineText
pub mod Rounds
mod Tests
use os.Base.{
  ℕ, zero, suc, ◌+◌, ◌-◌, Bool, true, false, ◌&&◌, Option, none, some, List, [], ◌∷◌, ◌++◌, map,
  ltb, leb, if◌then◌else◌,
}
use os.Base.Int.{ℤ, pos, ltb_ℤ}
use os.Strings.{Memory}
use os.Readline.{buflen, Input, Line, returned, failed, waiting, readline}
use os.Printf.Format.{Arg}
use os.Debug.{Run, done, out_of_fuel, ◌>>=◌}
use os.Debug.Eip.{Symbols}
use os.Monitor.{
  Parsed, too_many, arguments, Action, nothing, too_many_arguments, unknown, invoke, parse, runcmd,
}
use os.Monitor.Commands.{Command, Image, Printed, perform}

-- What the commands read, and where the buffer of `readline` lies.
pub record Shell : Type 0 where
  pub symbols : Symbols
  pub image : Image
  pub commands : List Command
  pub stack : ℕ → ℕ
  pub ebp : ℕ
  pub buffer : ℕ

-- What is shown: the two lines of the welcome, the prompt, the echo of `readline` (last character
-- first), what the commands print; and the messages of kern/init.c and of `cons_init`.
pub data Shown : Type 0 where
  welcome hint prompt : Shown
  echoed : List ℕ → Shown
  output : Printed → Shown
  panic_at warning_at : ℕ → ℕ → Shown
  formatted : ℕ → List Arg → Shown
  line_end no_serial_line : Shown
  octal_line : ℕ → Shown

-- The session waits for a key, or `monitor` has returned and lines are left.
pub data Session : Type 0 where
  asks : List Shown → Memory → Session
  leaves : List Shown → List (List Input) → Memory → Session

abbrev pub shows : List Shown → Session → Session
shows out (asks more m) = asks (out ++ more) m
shows out (leaves more lines m) = leaves (out ++ more) lines m

-- The names of the commands, for `strcmp`.
abbrev pub names : Shell → List ℕ
names h = map (λ (c : Command). c.name) h.commands

-- Memory with the buffer in it.
abbrev pub with_buffer : ℕ → (ℕ → ℕ) → Memory → Memory
with_buffer a buf m j = if leb a j && ltb j (a + buflen) then buf (j - a) else m j

-- Memory after `runcmd`: its parser has put zero bytes into the line, the commands write nothing.
abbrev pub after_parse : Memory → Option Parsed → Memory
after_parse m none = m
after_parse m (some (too_many m')) = m'
after_parse m (some (arguments argv m')) = m'

-- What `runcmd` returns: 0 itself, and 0 from every function of `commands`.
abbrev pub status : Action → ℤ
status nothing = pos 0
status too_many_arguments = pos 0
status (unknown arg) = pos 0
status (invoke i argv m) = pos 0

-- What stands between two calls of `readline`: `runcmd` in the memory `m`, whose result leads
-- on or out of the loop.
abbrev pub run_line : Shell → (Memory → Run Session) → List (List Input) → Memory → Run Session
run_line h again more m = elim (runcmd (names h) m h.buffer) [
  | none ↦ out_of_fuel
  | some a ↦ perform h.symbols h.image h.commands h.stack h.ebp a >>= λ lines.
      elim (ltb_ℤ (status a) (pos 0)) [
        | true ↦ done (leaves (map output lines) more (after_parse m (parse m h.buffer)))
        | false ↦
            again (after_parse m (parse m h.buffer)) >>= λ s. done (shows (map output lines) s)
      ]
]

-- The results of `getchar` in the successive calls of `readline`; the last may still wait. The
-- message of `readline` on an error is left out.
unfoldable pub monitor_loop : Shell → List (List Input) → Memory → Run Session
monitor_loop h [] m = done (asks [] m)
monitor_loop h (keys ∷ more) m = elim (readline keys (λ j. m (h.buffer + j))) [
  | waiting l ↦ done (asks (prompt ∷ echoed l.echoed ∷ []) (with_buffer h.buffer l.buf m))
  | failed l ↦ monitor_loop h more (with_buffer h.buffer l.buf m) >>= λ s.
      done (shows (prompt ∷ echoed l.echoed ∷ []) s)
  | returned l ↦ run_line h (monitor_loop h more) more (with_buffer h.buffer l.buf m) >>= λ s.
      done (shows (prompt ∷ echoed l.echoed ∷ []) s)
]

unfoldable pub monitor : Shell → List (List Input) → Memory → Run Session
monitor h lines m = monitor_loop h lines m >>= λ s. done (shows (welcome ∷ hint ∷ []) s)
