-- ===== src/Monitor.antt =====
-- kern/monitor.c: the command interpreter. A line is in the memory of lib/string.c.
pub mod Parse
pub mod Words
pub mod Split
pub mod Lookup
pub mod Commands
pub mod Trace
pub mod Shell
mod Tests
use os.Base.{
  ℕ, zero, suc, ◌+◌, ◌-◌, Bool, true, false, not, ◌&&◌, ◌||◌, Option, none, some, List, [], ◌∷◌,
  ◌++◌, ◌==◌, update,
}
use os.Base.Lists.{length}
use os.Strings.{Memory, addresses, strcmp}

abbrev pub maxargs : ℕ
maxargs = 16

-- `strchr(WHITESPACE, c)`, of a `c` that is not 0
abbrev pub is_blank : ℕ → Bool
is_blank c = (c == 9) || (c == 13) || (c == 10) || (c == 32)

-- The variable `buf`, and memory.
pub record Cursor : Type 0 where
  pub buf : ℕ
  pub mem : Memory

-- The loops over one line; `none` is a loop that has used up its rounds.
unfoldable pub gobble : ℕ → Memory → ℕ → Option Cursor
gobble zero m buf = none
gobble (suc fuel) m buf = elim (not (m buf == 0) && is_blank (m buf)) [
  | true ↦ gobble fuel (update m buf 0) (buf + 1)
  | false ↦ some (record { buf = buf; mem = m })
]

unfoldable pub scan_past : ℕ → Memory → ℕ → Option ℕ
scan_past zero m buf = none
scan_past (suc fuel) m buf = elim (not (m buf == 0) && not (is_blank (m buf))) [
  | true ↦ scan_past fuel m (buf + 1)
  | false ↦ some buf
]

-- The arguments `argv[0 .. argc]`, or one too many.
pub data Parsed : Type 0 where
  too_many : Memory → Parsed
  arguments : List ℕ → Memory → Parsed

unfoldable pub parse_loop : ℕ → List ℕ → Memory → ℕ → Option Parsed
parse_loop zero argv m buf = none
parse_loop (suc fuel) argv m buf = elim (gobble addresses m buf) [
  | none ↦ none
  | some c ↦ elim (c.mem c.buf == 0) [
    | true ↦ some (arguments argv c.mem)
    | false ↦ elim (length argv == maxargs - 1) [
      | true ↦ some (too_many c.mem)
      | false ↦ elim (scan_past addresses c.mem c.buf) [
        | none ↦ none
        | some buf' ↦ parse_loop fuel (argv ++ c.buf ∷ []) c.mem buf'
      ]
    ]
  ]
]

unfoldable pub parse : Memory → ℕ → Option Parsed
parse m buf = parse_loop maxargs [] m buf

-- The first command, from the `i`th on, whose name is the string at `arg`.
unfoldable pub lookup : List ℕ → ℕ → Memory → ℕ → Option (Option ℕ)
lookup [] i m arg = some none
lookup (name ∷ names) i m arg = elim (strcmp m arg name) [
  | none ↦ none
  | some r ↦ elim (r == 0) [ true ↦ some (some i) | false ↦ lookup names (i + 1) m arg ]
]

-- What a line leads to: nothing, a message, or the call of a command.
pub data Action : Type 0 where
  nothing too_many_arguments : Action
  unknown : ℕ → Action
  invoke : ℕ → List ℕ → Memory → Action

abbrev pub invoked : List ℕ → ℕ → Memory → Option (Option ℕ) → Option Action
invoked argv arg m none = none
invoked argv arg m (some none) = some (unknown arg)
invoked argv arg m (some (some i)) = some (invoke i argv m)

abbrev pub dispatch : List ℕ → Option Parsed → Option Action
dispatch names none = none
dispatch names (some (too_many m)) = some too_many_arguments
dispatch names (some (arguments [] m)) = some nothing
dispatch names (some (arguments (arg ∷ args) m)) = invoked (arg ∷ args) arg m (lookup names 0 m arg)

-- `names` are the addresses of the names of `commands`.
unfoldable pub runcmd : List ℕ → Memory → ℕ → Option Action
runcmd names m buf = dispatch names (parse m buf)
