-- ===== src/Terminal.antt =====
-- lib/readline.c over kern/console.c: `readline` takes its characters from `getchar` and echoes them
-- by `cputchar`.
pub mod Stream
pub mod Edited
mod Tests
use os.Base.{ℕ, zero, suc, true, false, List, [], ◌∷◌, length}
use os.Console.Input.{Ring, Devices}
use os.Console.Screen.{Output, cputchar}
use os.Console.Getchar.{Arrival, getchar, got, still_waiting, stuck}
use os.Readline.{Line, erase, insert, end_line, is_erase, is_text, is_end}

-- A line, with what is still to arrive; or the line so far. `blocked` is a read that did not end.
pub data Read : Type 0 where
  line_read : Line → Devices → Ring → Output → List Arrival → Read
  more_keys : Line → Devices → Ring → Output → Read
  blocked : Read

unfoldable pub read_on : ℕ → List Arrival → Devices → Ring → Output → Line → Read
read_on zero arrivals d r o l = blocked
read_on (suc fuel) arrivals d r o l = elim (getchar arrivals d r) [
  | stuck ↦ blocked
  | still_waiting d' r' ↦ more_keys l d' r' o
  | got c d' r' more ↦ elim (is_erase c l) [
    | true ↦ read_on fuel more d' r' (cputchar 8 o) (erase l)
    | false ↦ elim (is_text c l) [
      | true ↦ read_on fuel more d' r' (cputchar c o) (insert c l)
      | false ↦ elim (is_end c) [
        | true ↦ line_read (end_line l) d' r' (cputchar 10 o) more
        | false ↦ read_on fuel more d' r' o l
      ]
    ]
  ]
]

-- Every character has taken a poll, so there are no more rounds than polls.
unfoldable pub terminal_readline : List Arrival → (ℕ → ℕ) → Devices → Ring → Output → Read
terminal_readline arrivals buf d r o =
    read_on (suc (length arrivals)) arrivals d r o (record { i = 0; buf = buf; echoed = [] })
