-- ===== src/Monitor/Tests.antt =====
-- The command interpreter on the line " help me", with the name of one command in memory.
use os.Base.{ℕ, zero, suc, ◌≡◌, refl, Option, some, List, [], ◌∷◌, arith}
use os.Strings.{Memory, strcmp, strcmp_loop}
use os.Strings.Scan.{IsString}
use os.Monitor.{gobble, scan_past, parse_loop, parse, Action, invoke, lookup, runcmd}
use os.Base.{◌==◌, if◌then◌else◌}
use os.Debug.{done}
use os.Debug.Eip.{Answer, found, debuginfo_eip}
use os.Debug.Answer.{fn_info, debuginfo_eip_lem}
use os.Debug.Tests.{symbols, located, name-IsString}
use os.Monitor.Commands.{trace_title, mon_backtrace}
use os.Monitor.Trace.{lines, mon_backtrace-lines}
use os.Monitor.Lookup.{IsBytes, IsChosen, runcmd-IsChosen}

abbrev text : List ℕ
text = 32 ∷ 104 ∷ 101 ∷ 108 ∷ 112 ∷ 32 ∷ 109 ∷ 101 ∷ 0 ∷ 104 ∷ 101 ∷ 108 ∷ 112 ∷ 0 ∷ []

abbrev byte : List ℕ → Memory
byte [] j = 0
byte (b ∷ bs) zero = b
byte (b ∷ bs) (suc j) = byte bs j

abbrev line : Memory
line = byte text

line-IsString : IsString line 0 8
line-IsString = ground arith

-- The command that is called and its arguments
abbrev called : Option Action → List ℕ
called (some (invoke i argv m)) = i ∷ argv
called o = []

help_called : called (runcmd (9 ∷ []) line 0) ≡ 0 ∷ 1 ∷ 6 ∷ []
unfolding runcmd parse parse_loop gobble scan_past lookup strcmp strcmp_loop
help_called = refl

line-IsBytes : IsBytes line
line-IsBytes = ground arith

runcmd-IsChosen_example :
    (a : Action) × (runcmd (9 ∷ []) line 0 ≡ some a) × IsChosen (9 ∷ []) 0 8 line a
runcmd-IsChosen_example = runcmd-IsChosen (9 ∷ []) line 0 8 line-IsString (omega arith) line-IsBytes

-- Two frames, at 64 and at 128, that return to line 11 of `g`
abbrev stack : ℕ → ℕ
stack a =
    if a == 64 then 128 else if (a == 68) then 0xf010_0048 else if a == 132 then 0xf010_0048 else 0

abbrev answer : ℕ → Answer
answer ebp = found (fn_info symbols 1 2 6 5 3)

answer_lem : debuginfo_eip symbols 0xf010_0048 ≡ done (answer 0)
answer_lem = debuginfo_eip_lem symbols 0xf010_0048 1 8 2 6 5 6 located 3 name-IsString (omega arith)

mon_backtrace-lines_example :
    mon_backtrace symbols stack 64 ≡ done (trace_title ∷ lines stack answer 64 (128 ∷ []))
mon_backtrace-lines_example =
    mon_backtrace-lines symbols stack answer 64 (128 ∷ []) (refl, omega arith, refl)
      (answer_lem, answer_lem) (omega arith)

-- A frame at 128 that holds its own address
abbrev looped : ℕ → ℕ
looped a = if a == 128 then 128 else 0xf010_0048
