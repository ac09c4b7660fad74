-- ===== src/Monitor/Shell/Tests.antt =====
-- A session with one command, whose line is typed with a mistake.
use os.Base.{◌+◌, ◌≡◌, refl, [], ◌∷◌, ◌==◌, if◌then◌else◌, arith}
use os.Strings.{Memory}
use os.Readline.{char, Line}
use os.Readline.Edit.{Shows}
use os.Debug.Tests.{symbols}
use os.Monitor.{Action}
use os.Monitor.Commands.{perform}
use os.Monitor.Parse.{KeepsRest}
use os.Monitor.Lookup.{IsBytes, IsChosen}
use os.Monitor.Shell.{Shell, prompt, echoed, with_buffer, monitor_loop}
use os.Monitor.Shell.Rounds.{and_session, monitor_loop-runs}

-- The name "go" stands at 9, and the buffer at 1000.
abbrev memory : Memory
memory j = if j == 9 then 103 else if j == 10 then 111 else 0

memory-IsBytes : IsBytes memory
memory-IsBytes = ground arith

abbrev shell : Shell
shell = record {
  symbols = symbols;
  image = record {
    first = 0x10_0000;
    entry = 0xf010_000c;
    etext = 0xf010_1000;
    edata = 0xf011_2000;
    image_end = 0xf011_3000;
  };
  commands = record { name = 9; desc = 9 } ∷ [];
  stack = λ _. 0;
  ebp = 0;
  buffer = 1000;
}

-- "gp", a backspace and "o"
monitor_loop-runs_example :
    (l : Line) × (a : Action) × (m' : Memory) × Shows l.buf l.i (111 ∷ 103 ∷ [])
    × (l.echoed ≡ 10 ∷ 111 ∷ 8 ∷ 112 ∷ 103 ∷ [])
    × IsChosen (9 ∷ []) 1000 l.i (with_buffer 1000 l.buf memory) a
    × KeepsRest 1000 (1000 + l.i) (with_buffer 1000 l.buf memory) m'
    × (monitor_loop shell ((char 103 ∷ char 112 ∷ char 8 ∷ char 111 ∷ char 10 ∷ []) ∷ []) memory
        ≡ and_session
            (perform symbols shell.image shell.commands shell.stack 0 a)
            (prompt ∷ echoed l.echoed ∷ [])
            (monitor_loop shell [] m'))
monitor_loop-runs_example =
    monitor_loop-runs shell (103 ∷ 112 ∷ 8 ∷ 111 ∷ []) 10 [] memory
      (omega arith, (omega arith, (omega arith, (omega arith, tt))))
      (refl, (refl, (refl, (refl, tt)))) refl memory-IsBytes (omega arith)
