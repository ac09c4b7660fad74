-- ===== src/Debug/Loops.antt =====
-- The loops of `debuginfo_eip`: the file of a line, and the parameters of a function.
use os.Base.{
  ℕ, zero, suc, ◌+◌, ◌-◌, ◌≤◌, ◌<◌, ◌≡◌, refl, inl, inr, Bool, true, false, not, ◌&&◌, ◌||◌, ltb,
  leb, ◌==◌, if◌then◌else◌, arith, ap, ◌∙◌, Bool-cases, ltb→lt,
}
use os.Base.Int.{ℤ, pos, ◌+ℤ◌, prev, pos-add, prev-suc, prev-sub, leb-prev, leb_ℤ, ltb_ℤ}
use os.Debug.{Stab, Table, done, ◌>>=◌, n_so, n_sol, n_psym}
use os.Debug.Scan.{stab_at_lem}
use os.Debug.Bracket.{not_before}
use os.Debug.Eip.{Symbols, name_or, file_loop, file_name, arg_loop}

-- A stab that names a file.
abbrev pub names_file : Stab → Bool
names_file s = (s.n_type == n_sol) || ((s.n_type == n_so) && not (s.n_value == 0))

-- The name of the last file below `k`, and not below `low`.
abbrev pub last_file : Symbols → ℕ → ℕ → ℕ
last_file y low zero = y.unknown
last_file y low (suc k) =
    if ltb low (suc k)
    then if names_file (y.table.stabs k)
      then name_or y (y.table.stabs k).n_strx y.unknown
      else last_file y low k
    else y.unknown

-- The number of parameters from the stab `i` on, of `room` stabs.
abbrev pub parameters : Table → ℕ → ℕ → ℕ
parameters t i zero = 0
parameters t i (suc room) =
    if (t.stabs i).n_type == n_psym then suc (parameters t (i + 1) room) else 0

-- The loop goes on where the stab names no file.
skips : (a b c : Bool) → (not a && (not b || c)) ≡ not (a || (b && not c))
skips true b c = refl
skips false true true = refl
skips false true false = refl
skips false false c = refl

module _ (y : Symbols) (fuel low : ℕ) where
  file_loop-stop :
      (k : ℕ) → k ≤ low → file_loop y.table (suc fuel) (pos low) (prev k) ≡ done (prev k)
  unfolding file_loop
  file_loop-stop k h =
      let test : leb_ℤ (pos low) (prev k) ≡ false = leb-prev low k ∙ ground (arith, h) in
      rw (file_loop, test) refl

  module _ (k : ℕ) (order : low ≤ k) (inside : k < y.table.count) where
    reached : leb_ℤ (pos low) (pos k) ≡ true
    reached = ground (arith, order)

    skipped :
        (b : Bool)
        → names_file (y.table.stabs k) ≡ b
        → (not ((y.table.stabs k).n_type == n_sol)
            && (not ((y.table.stabs k).n_type == n_so) || (y.table.stabs k).n_value == 0))
          ≡ not b
    skipped b e =
        skips ((y.table.stabs k).n_type == n_sol) ((y.table.stabs k).n_type == n_so)
          ((y.table.stabs k).n_value == 0)
        ∙ ap not e

    file_loop-hit :
        names_file (y.table.stabs k) ≡ true
        → file_loop y.table (suc fuel) (pos low) (pos k) ≡ done (pos k)
    unfolding file_loop
    file_loop-hit e =
        rw (file_loop, reached, stab_at_lem y.table k inside, ◌>>=◌, skipped true e) refl

    file_loop-miss :
        names_file (y.table.stabs k) ≡ false
        → file_loop y.table (suc fuel) (pos low) (pos k) ≡ file_loop y.table fuel (pos low) (prev k)
    unfolding file_loop
    file_loop-miss e =
        rw (file_loop, reached, stab_at_lem y.table k inside, ◌>>=◌, skipped false e, prev-sub k)
          refl

  file_name-stop : (k : ℕ) → k ≤ low → file_name y (pos low) (prev k) ≡ done y.unknown
  unfolding file_name
  file_name-stop k h =
      let test : leb_ℤ (pos low) (prev k) ≡ false = leb-prev low k ∙ ground (arith, h) in
      rw (file_name, test) refl

  file_name-at :
      (k : ℕ)
      → low ≤ k
      → k < y.table.count
      → file_name y (pos low) (pos k) ≡ done (name_or y (y.table.stabs k).n_strx y.unknown)
  unfolding file_name
  file_name-at k order inside =
      let test : leb_ℤ (pos low) (pos k) ≡ true = ground (arith, order) in
      rw (file_name, test, stab_at_lem y.table k inside, ◌>>=◌) refl

pub file_loop_lem :
    (y : Symbols) (fuel low k : ℕ)
    → k ≤ y.table.count
    → k < fuel
    → (at : ℤ) × (file_loop y.table fuel (pos low) (prev k) ≡ done at)
      × (file_name y (pos low) at ≡ done (last_file y low k))
file_loop_lem y zero low k inside enough = absurd (omega arith)
file_loop_lem y (suc fuel) low zero inside enough =
    (prev 0, file_loop-stop y fuel low 0 (omega arith), file_name-stop y fuel low 0 (omega arith))
file_loop_lem y (suc fuel) low (suc k) inside enough = elim (Bool-cases (ltb low (suc k))) [
  | inr stop ↦
      let order = not_before low (suc k) stop in
      (
        prev (suc k),
        file_loop-stop y fuel low (suc k) order,
        rw stop (file_name-stop y fuel low (suc k) order),
      )
  | inl more ↦
      let order : low ≤ k = omega (arith, ltb→lt low (suc k) more) in
      elim (Bool-cases (names_file (y.table.stabs k))) [
        | inl hit ↦ (
          pos k,
          rw (prev-suc k) (file_loop-hit y fuel low k order inside hit),
          rw (more, hit) (file_name-at y fuel low k order inside),
        )
        | inr miss ↦
            let (at, looped, named) =
              file_loop_lem y fuel low k (omega (arith, inside)) (omega (arith, enough)) in
            (
              at,
              rw (prev-suc k) (file_loop-miss y fuel low k order inside miss ∙ looped),
              rw (more, miss) named,
            )
      ]
]

arg_loop_lem :
    (t : Table) (fuel room i narg : ℕ)
    → i + room < t.count
    → room < fuel
    → arg_loop t fuel (pos i) (pos (i + room)) narg ≡ done (narg + parameters t i room)
unfolding arg_loop
arg_loop_lem t zero room i narg inside enough = absurd (omega arith)
arg_loop_lem t (suc fuel) zero i narg inside enough =
    let test : ltb_ℤ (pos i) (pos (i + 0)) ≡ false = ground arith in
    rw (arg_loop, test) (ap done (omega arith))
arg_loop_lem t (suc fuel) (suc room) i narg inside enough =
    let test : ltb_ℤ (pos i) (pos (i + suc room)) ≡ true = ground arith in
    elim (Bool-cases ((t.stabs i).n_type == n_psym)) [
      | inl hit ↦
          rw (arg_loop, test, stab_at_lem t i (omega (arith, inside)), ◌>>=◌, hit, pos-add)
            (ap (λ r. arg_loop t fuel (pos (i + 1)) (pos r) (narg + 1)) {x = i + suc room}
                {y = i + 1 + room} (omega arith)
              ∙ arg_loop_lem t fuel room (i + 1) (narg + 1) (omega (arith, inside))
                  (omega (arith, enough))
              ∙ ap done (omega arith))
      | inr miss ↦
          rw (arg_loop, test, stab_at_lem t i (omega (arith, inside)), ◌>>=◌, miss)
            (ap done (omega arith))
    ]

-- From the stab behind `g` on to the one before the end of the function.
pub args_lem :
    (t : Table) (g k fuel : ℕ)
    → g < k
    → k ≤ t.count
    → k < fuel
    → arg_loop t (suc fuel) (pos g +ℤ pos 1) (prev k) 0 ≡ done (parameters t (g + 1) (k - g - 2))
unfolding arg_loop
args_lem t g zero fuel order inside enough = absurd (omega arith)
args_lem t g (suc k) fuel order inside enough = elim (Bool-cases (ltb g k)) [
  | inl more ↦
      rw (pos-add, prev-suc k)
        (ap (λ r. arg_loop t (suc fuel) (pos (g + 1)) (pos r) 0) {x = k}
            {y = g + 1 + (suc k - g - 2)} (omega (arith, ltb→lt g k more))
          ∙ arg_loop_lem t (suc fuel) (suc k - g - 2) (g + 1) 0
              (omega (arith, ltb→lt g k more, inside)) (omega (arith, enough))
          ∙ ap done (omega arith))
  | inr same ↦
      let test : ltb_ℤ (pos (g + 1)) (pos k) ≡ false = ground (arith, same) in
      rw (pos-add, prev-suc k)
        (rw (arg_loop, test)
          (ap (λ r. done (parameters t (g + 1) r)) {x = 0} {y = suc k - g - 2}
            (omega (arith, not_before g k same))))
]

-- The test of the string table.
pub strings_good : (a b c : ℕ) → a < b → c ≡ 0 → (leb b a || not (c == 0)) ≡ false
strings_good a b c h e = ground arith
