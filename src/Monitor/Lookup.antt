-- ===== src/Monitor/Lookup.antt =====
-- The command that `runcmd` calls: the first one whose name is the first argument.
use os.Base.{
  ℕ, zero, suc, ◌+◌, ◌-◌, ◌≤◌, ◌<◌, ◌^◌, ◌≡◌, ◌≢◌, ◌⊎◌, refl, inl, inr, true, false, leb, ltb, ◌&&◌,
  sym, Option, none, some, List, [], ◌∷◌, ◌==◌, arith, ap, ◌∙◌, Bool-cases, ne→==, ==_iff, sub32,
}
use os.Strings.{Memory, strcmp}
use os.Strings.Scan.{IsString}
use os.Strings.Compare.{Agree, strcmp_lem}
use os.Monitor.{
  Parsed, too_many, arguments, lookup, Action, nothing, too_many_arguments, unknown, invoke,
  dispatch, runcmd,
}
use os.Monitor.Words.{blank, words, IsCut, cut_at, words-first}
use os.Monitor.Split.{IsSplit, parse-IsSplit}
use os.Base.Lists.{length}

-- The strings at `p` and `q` are the same, or differ at a place.
abbrev pub Equal : Memory → ℕ → ℕ → Type 0
Equal m p q = (k : ℕ) × Agree m p q k × (m (p + k) ≡ 0) × (m (q + k) ≡ 0)

abbrev pub Differ : Memory → ℕ → ℕ → Type 0
Differ m p q = (k : ℕ) × Agree m p q k × (m (p + k) ≢ m (q + k))

-- `r` is the first of the names that is the string at `arg`, counted from `i`.
abbrev pub IsFirst : Memory → ℕ → List ℕ → ℕ → Option ℕ → Type 0
IsFirst m arg [] i r = r ≡ none
IsFirst m arg (name ∷ names) i r =
    (Equal m arg name × (r ≡ some i)) ⊎ (Differ m arg name × IsFirst m arg names (i + 1) r)

-- Every byte is one.
abbrev pub IsBytes : Memory → Type 0
IsBytes m = (j : ℕ) → m j < 256

compared :
    (m : Memory) (p q n : ℕ)
    → IsBytes m
    → IsString m p n
    → n < 2 ^ 32
    → ((strcmp m p q ≡ some 0) × Equal m p q)
      ⊎ ((r : ℕ) × (strcmp m p q ≡ some r) × ((r == 0) ≡ false) × Differ m p q)
compared m p q n bytes v small =
    let (k, le, agree, stops, run, others) = strcmp_lem m p q n 0 v small in
    elim (Bool-cases (m (p + k) == m (q + k))) [
      | inl same ↦
          let e : m (p + k) ≡ m (q + k) = (==_iff _ _).0 same in
          let end : m (p + k) ≡ 0 = elim stops [ inl at_end ↦ at_end | inr ne ↦ absurd (ne e) ] in
          inl (
            run ∙ ap some (omega (arith, e, bytes (p + k))),
            (k, agree, end, omega (arith, e, end)),
          )
      | inr other ↦
          let ne : m (p + k) ≢ m (q + k) = λ e. ground (arith, e, other) in
          inr (
            sub32 (m (p + k)) (m (q + k)),
            run,
            ne→== _ 0 (λ z. ne (omega (arith, z, bytes (p + k), bytes (q + k)))),
            (k, agree, ne),
          )
    ]

lookup-IsFirst :
    (names : List ℕ) (i : ℕ) (m : Memory) (arg n : ℕ)
    → IsBytes m
    → IsString m arg n
    → n < 2 ^ 32
    → (r : Option ℕ) × (lookup names i m arg ≡ some r) × IsFirst m arg names i r
unfolding lookup
lookup-IsFirst [] i m arg n bytes v small = (none, refl, refl)
lookup-IsFirst (name ∷ names) i m arg n bytes v small = elim (compared m arg name n bytes v small) [
  | inl (run, equal) ↦ (some i, rw (lookup, run) refl, inl (equal, refl))
  | inr (d, run, nonzero, differ) ↦
      let (r, later, first) = lookup-IsFirst names (i + 1) m arg n bytes v small in
      (r, rw (lookup, run, nonzero) later, inr (differ, first))
]

-- A string starts wherever a zero byte follows.
string_before : (m : Memory) (n p : ℕ) → m (p + n) ≡ 0 → (k : ℕ) × (k ≤ n) × IsString m p k
string_before m zero p end = (0, omega arith, ap m {x = p} {y = p + 0} (omega arith) ∙ end)
string_before m (suc n) p end = elim (Bool-cases (m p == 0)) [
  | inl here ↦ (0, omega arith, (==_iff (m p) 0).0 here)
  | inr more ↦
      let (k, le, v) =
        string_before m n (p + 1) (ap m {x = p + 1 + n} {y = p + suc n} (omega arith) ∙ end) in
      (suc k, omega (arith, le), (λ e. ground (arith, e, more), v))
]

string_end : (m : Memory) (n p : ℕ) → IsString m p n → m (p + n) ≡ 0
string_end m zero p v = ap m {x = p + 0} {y = p} (omega arith) ∙ v
string_end m (suc n) p v =
    ap m {x = p + suc n} {y = p + 1 + n} (omega arith) ∙ string_end m n (p + 1) v.1

-- What `runcmd` does with the line of `n` bytes from `lo`, by its words: nothing without a word, a
-- message where there are more than 15 or where no command has the name of the first, and else the
-- call of the first command with that name, with the words as its arguments. Zero bytes stand for
-- the blanks of the line then.
abbrev pub IsChosen : List ℕ → ℕ → ℕ → Memory → Action → Type 0
IsChosen names lo n m nothing = words n true m lo ≡ []
IsChosen names lo n m too_many_arguments = 15 < length (words n true m lo)
IsChosen names lo n m (unknown arg) =
    (args : List ℕ) × (m' : Memory) × (words n true m lo ≡ arg ∷ args)
    × (length (words n true m lo) ≤ 15)
    × IsCut lo (lo + n) m m'
    × IsFirst m' arg names 0 none
IsChosen names lo n m (invoke i argv m') =
    (arg : ℕ) × (args : List ℕ) × (argv ≡ arg ∷ args)
    × (argv ≡ words n true m lo)
    × (length (words n true m lo) ≤ 15)
    × IsCut lo (lo + n) m m'
    × IsFirst m' arg names 0 (some i)

module _ (names : List ℕ) (m : Memory) (buf n : ℕ) (v : IsString m buf n) (small : buf + n < 2 ^ 32)
    (bytes : IsBytes m) where
  -- What the parser leaves of the line.
  cut_byte : (m' : Memory) → IsCut buf (buf + n) m m' → (j : ℕ) → m' j ≤ m j
  cut_byte m' c j = elim (Bool-cases (leb buf j && ltb j (buf + n) && blank (m j))) [
    | inl gone ↦ let e : m' j ≡ 0 = rw gone at (c j) in omega (arith, e)
    | inr kept ↦ let e : m' j ≡ m j = rw kept at (c j) in omega (arith, e)
  ]

  cut_end : (m' : Memory) → IsCut buf (buf + n) m m' → m' (buf + n) ≡ 0
  cut_end m' c = cut_at buf (buf + n) m m' c ∙ string_end m n buf v

  dispatch-IsChosen :
      (r : Parsed)
      → IsSplit buf (buf + n) m (words n true m buf) r
      → (a : Action) × (dispatch names (some r) ≡ some a) × IsChosen names buf n m a
  dispatch-IsChosen (too_many m') p = (too_many_arguments, refl, p)
  dispatch-IsChosen (arguments [] m') p = (nothing, refl, sym p.0)
  dispatch-IsChosen (arguments (arg ∷ args) m') p =
      let inside = words-first n true m buf arg args (sym p.0) in
      let end : m' (arg + (buf + n - arg)) ≡ 0 =
        ap m' {x = arg + (buf + n - arg)} {y = buf + n} (omega (arith, inside.1))
        ∙ cut_end m' p.2 in
      let (k, le, word) = string_before m' (buf + n - arg) arg end in
      let (r, found, first) =
        lookup-IsFirst names 0 m' arg k (λ j. omega (arith, cut_byte m' p.2 j, bytes j)) word
          (omega (arith, le, small, inside.1)) in
      ends r found first
    where
      ends :
          (r : Option ℕ)
          → lookup names 0 m' arg ≡ some r
          → IsFirst m' arg names 0 r
          → (a : Action) × (dispatch names (some (arguments (arg ∷ args) m')) ≡ some a)
            × IsChosen names buf n m a
      ends none found first = (unknown arg, rw found refl, (args, m', sym p.0, p.1, p.2, first))
      ends (some i) found first =
          (invoke i (arg ∷ args) m', rw found refl, (arg, args, refl, p.0, p.1, p.2, first))

  -- On a line of bytes that ends in a zero byte `runcmd` comes to an action, which its words
  -- choose; they are parted by spaces, tabs, carriage returns and newlines. It does nothing without
  -- a word, complains of more than 15, and else calls the first command whose name is the first
  -- word, with the words as arguments, or says that the first word is no command.
  pub runcmd-IsChosen : (a : Action) × (runcmd names m buf ≡ some a) × IsChosen names buf n m a
  unfolding runcmd
  runcmd-IsChosen =
      let (r, run, p) = parse-IsSplit m buf n v small in
      let (a, chosen, c) = dispatch-IsChosen r p in (a, rw run chosen, c)
