-- ===== src/Monitor/Trace.antt =====
-- What `mon_backtrace` prints.
use os.Base.{
  ℕ, zero, suc, ◌^◌, ◌<◌, ◌≡◌, ◌≢◌, refl, false, ◌+◌, ◌%◌, map, ap, sub32, List, [], ◌∷◌, ◌++◌,
  ◌==◌, arith, eq→==, ne→==,
}
use os.Base.Lists.{length}
use os.Strings.{addresses}
use os.Debug.{done, out_of_fuel, ◌>>=◌}
use os.Debug.Eip.{Answer, found, missing, Symbols, debuginfo_eip}
use os.Monitor.Commands.{
  Printed, frame, source, trace_title, stack_word, frame_line, source_line, trace_loop,
  mon_backtrace,
}

-- The frames from `ebp` on, the innermost first: each holds the address of the next, and the last
-- holds 0.
abbrev pub IsStack : (ℕ → ℕ) → ℕ → List ℕ → Type 0
IsStack stack ebp [] = stack ebp ≡ 0
IsStack stack ebp (caller ∷ callers) =
    (stack ebp ≡ caller) × (caller ≢ 0) × IsStack stack caller callers

-- The frame as the caller left it, by bytes from `ebp`: the saved `ebp` is at 0, the return address
-- at 4 and five words for the arguments at 8, 12, 16, 20 and 24.
abbrev pub saved : (ℕ → ℕ) → ℕ → ℕ → ℕ
saved stack ebp offset = stack ((ebp + offset) % 2 ^ 32)

-- `debuginfo_eip` answers for the return address of each frame.
abbrev pub Answers : Symbols → (ℕ → ℕ) → (ℕ → Answer) → ℕ → List ℕ → Type 0
Answers y stack answer ebp [] = debuginfo_eip y (saved stack ebp 4) ≡ done (answer ebp)
Answers y stack answer ebp (caller ∷ callers) =
    (debuginfo_eip y (saved stack ebp 4) ≡ done (answer ebp))
    × Answers y stack answer caller callers

-- The distance of the return address from the start of its function, where that is known.
abbrev pub from_function : ℕ → Answer → List Printed
from_function eip (missing i) = []
from_function eip (found i) =
    source i.eip_file i.eip_line i.eip_fn_namelen i.eip_fn_name (sub32 eip i.eip_fn_addr) ∷ []

abbrev pub frame_lines : (ℕ → ℕ) → (ℕ → Answer) → ℕ → List Printed
frame_lines stack answer ebp =
    frame ebp (saved stack ebp 4) (map (saved stack ebp) (8 ∷ 12 ∷ 16 ∷ 20 ∷ 24 ∷ []))
    ∷ from_function (saved stack ebp 4) (answer ebp)

abbrev pub lines : (ℕ → ℕ) → (ℕ → Answer) → ℕ → List ℕ → List Printed
lines stack answer ebp [] = frame_lines stack answer ebp
lines stack answer ebp (caller ∷ callers) =
    frame_lines stack answer ebp ++ lines stack answer caller callers

source_line_lem : (eip : ℕ) (a : Answer) → source_line eip a ≡ from_function eip a
source_line_lem eip (missing i) = refl
source_line_lem eip (found i) = refl

frame_lines_lem :
    (stack : ℕ → ℕ) (answer : ℕ → Answer) (ebp : ℕ)
    → frame_line stack ebp ∷ source_line (stack_word stack ebp 1) (answer ebp)
      ≡ frame_lines stack answer ebp
frame_lines_lem stack answer ebp =
    ap (λ l. frame_line stack ebp ∷ l) (source_line_lem (stack_word stack ebp 1) (answer ebp))

trace_loop-lines :
    (y : Symbols) (stack : ℕ → ℕ) (answer : ℕ → Answer) (fuel ebp : ℕ) (callers : List ℕ)
    → IsStack stack ebp callers
    → Answers y stack answer ebp callers
    → length callers < fuel
    → trace_loop y stack fuel ebp ≡ done (lines stack answer ebp callers)
unfolding trace_loop
trace_loop-lines y stack answer zero ebp callers v a h = absurd (omega (arith, h))
trace_loop-lines y stack answer (suc fuel) ebp [] v a h =
    rw (trace_loop, a, ◌>>=◌, eq→== (stack ebp) 0 v) (ap done (frame_lines_lem stack answer ebp))
trace_loop-lines y stack answer (suc fuel) ebp (caller ∷ callers) v a h =
    let next : trace_loop y stack fuel (stack ebp) ≡ done (lines stack answer caller callers) =
      rw (v.0) (trace_loop-lines y stack answer fuel caller callers v.2 a.1 (omega (arith, h))) in
    let more : (stack ebp == 0) ≡ false = ne→== (stack ebp) 0 (rw (v.0) v.1) in
    rw (trace_loop, a.0, ◌>>=◌, more, next)
      (ap (λ l. done (l ++ lines stack answer caller callers)) (frame_lines_lem stack answer ebp))

-- On a stack of at most 2^32 frames that ends with 0, and where `debuginfo_eip` answers for each
-- return address, `mon_backtrace` ends. It prints its title and then the frames, the innermost
-- first: the frame's address, its return address and the five words above that, and the source
-- where it was found.
pub mon_backtrace-lines :
    (y : Symbols) (stack : ℕ → ℕ) (answer : ℕ → Answer) (ebp : ℕ) (callers : List ℕ)
    → IsStack stack ebp callers
    → Answers y stack answer ebp callers
    → length callers < 2 ^ 32
    → mon_backtrace y stack ebp ≡ done (trace_title ∷ lines stack answer ebp callers)
unfolding mon_backtrace
mon_backtrace-lines y stack answer ebp callers v a h =
    rw (mon_backtrace, trace_loop-lines y stack answer addresses ebp callers v a h, ◌>>=◌) refl

-- A frame that holds its own address, as a damaged stack may, is traced without end: no number of
-- rounds is enough.
pub trace_loop-cycle :
    (y : Symbols) (stack : ℕ → ℕ) (answer : Answer) (fuel ebp : ℕ)
    → stack ebp ≡ ebp
    → ebp ≢ 0
    → debuginfo_eip y (stack_word stack ebp 1) ≡ done answer
    → trace_loop y stack fuel ebp ≡ out_of_fuel
unfolding trace_loop
trace_loop-cycle y stack answer zero ebp self ne a = refl
trace_loop-cycle y stack answer (suc fuel) ebp self ne a =
    let again : trace_loop y stack fuel (stack ebp) ≡ out_of_fuel =
      rw self (trace_loop-cycle y stack answer fuel ebp self ne a) in
    let more : (stack ebp == 0) ≡ false = ne→== (stack ebp) 0 (rw self ne) in
    rw (trace_loop, a, ◌>>=◌, more, again) refl
