-- ===== src/Monitor/Commands.antt =====
-- The commands of kern/monitor.c. What they print is the list of their calls of `cprintf`, with
-- the arguments. Every command returns 0.
use os.Base.{ℕ, zero, suc, ◌*◌, ◌/◌, true, false, List, [], ◌∷◌, ◌++◌, ◌==◌, add32, sub32, round_up}
use os.Mmu.{kernbase}
use os.Strings.{addresses}
use os.Debug.{Run, done, fault, out_of_fuel, ◌>>=◌}
use os.Monitor.{Action, nothing, too_many_arguments, unknown, invoke, maxargs}
use os.Debug.Eip.{Answer, found, missing, Symbols, debuginfo_eip}

-- `struct Command`, without the function
pub record Command : Type 0 where
  pub name : ℕ
  pub desc : ℕ

-- The symbols of the linker that `mon_kerninfo` shows.
pub record Image : Type 0 where
  pub first : ℕ
  pub entry : ℕ
  pub etext : ℕ
  pub edata : ℕ
  pub image_end : ℕ

pub data Printed : Type 0 where
  command : ℕ → ℕ → Printed
  image_title : Printed
  start_line : ℕ → Printed
  entry_line etext_line edata_line end_line : ℕ → ℕ → Printed
  footprint : ℕ → Printed
  trace_title : Printed
  frame : ℕ → ℕ → List ℕ → Printed
  source : ℕ → ℕ → ℕ → ℕ → ℕ → Printed
  too_many_line unknown_line : ℕ → Printed

unfoldable pub mon_help : List Command → List Printed
mon_help [] = []
mon_help (c ∷ commands) = command c.name c.desc ∷ mon_help commands

unfoldable pub mon_kerninfo : Image → List Printed
mon_kerninfo k =
    image_title
    ∷ start_line k.first
    ∷ entry_line k.entry (sub32 k.entry kernbase)
    ∷ etext_line k.etext (sub32 k.etext kernbase)
    ∷ edata_line k.edata (sub32 k.edata kernbase)
    ∷ end_line k.image_end (sub32 k.image_end kernbase)
    ∷ footprint (round_up (sub32 k.image_end k.entry) 1024 / 1024)
    ∷ []

-- `*(stack_smernik + k)`, of the words of the stack
abbrev pub stack_word : (ℕ → ℕ) → ℕ → ℕ → ℕ
stack_word stack ebp k = stack (add32 ebp (4 * k))

-- The line of a frame.
abbrev pub frame_line : (ℕ → ℕ) → ℕ → Printed
frame_line stack ebp = frame ebp (stack_word stack ebp 1) (
    stack_word stack ebp 2
    ∷ stack_word stack ebp 3
    ∷ stack_word stack ebp 4
    ∷ stack_word stack ebp 5
    ∷ stack_word stack ebp 6
    ∷ [])

-- The line of the source, where it is found.
abbrev pub source_line : ℕ → Answer → List Printed
source_line eip (missing i) = []
source_line eip (found i) =
    source i.eip_file i.eip_line i.eip_fn_namelen i.eip_fn_name (sub32 eip i.eip_fn_addr) ∷ []

unfoldable pub trace_loop : Symbols → (ℕ → ℕ) → ℕ → ℕ → Run (List Printed)
trace_loop y stack zero ebp = out_of_fuel
trace_loop y stack (suc fuel) ebp = debuginfo_eip y (stack_word stack ebp 1) >>= λ answer.
    let lines = frame_line stack ebp ∷ source_line (stack_word stack ebp 1) answer in
    elim (stack ebp == 0) [
      | true ↦ done lines
      | false ↦ trace_loop y stack fuel (stack ebp) >>= λ rest. done (lines ++ rest)
    ]

-- `ebp` is what `read_ebp` returns.
unfoldable pub mon_backtrace : Symbols → (ℕ → ℕ) → ℕ → Run (List Printed)
mon_backtrace y stack ebp = trace_loop y stack addresses ebp >>= λ lines. done (trace_title ∷ lines)

-- What `runcmd` does at the end: the message, or the call of a function of `commands`.
unfoldable pub perform : Symbols → Image → List Command → (ℕ → ℕ) → ℕ → Action → Run (List Printed)
perform y k commands stack ebp nothing = done []
perform y k commands stack ebp too_many_arguments = done (too_many_line maxargs ∷ [])
perform y k commands stack ebp (unknown arg) = done (unknown_line arg ∷ [])
perform y k commands stack ebp (invoke zero argv m) = done (mon_help commands)
perform y k commands stack ebp (invoke (suc zero) argv m) = done (mon_kerninfo k)
perform y k commands stack ebp (invoke (suc (suc zero)) argv m) = mon_backtrace y stack ebp
perform y k commands stack ebp (invoke (suc (suc (suc i))) argv m) = fault
