-- ===== src/Strings/Compare.antt =====
-- The functions that compare strings and memory.
use os.Base.{
  ℕ, zero, suc, ◌+◌, ◌^◌, ◌≤◌, ◌<◌, ◌≡◌, ◌≢◌, ◌⊎◌, inl, inr, true, false, ◌&&◌, not, some, ltb,
  ◌==◌, if◌then◌else◌, arith, ap, ◌∙◌, subst, Bool-cases, sub32,
}
use os.Strings.{Memory, addresses, strcmp_loop, strcmp, strncmp, memcmp}
use os.Strings.Scan.{IsString}

-- The first `k` bytes at `p` and at `q` are the same, and none of them is zero.
abbrev pub Agree : Memory → ℕ → ℕ → ℕ → Type 0
Agree m p q zero = Unit {0}
Agree m p q (suc k) = (m p ≢ 0) × (m p ≡ m q) × Agree m (p + 1) (q + 1) k

-- A comparison stops here.
abbrev pub Stops : Memory → ℕ → ℕ → Type 0
Stops m p q = (m p ≡ 0) ⊎ (m p ≢ m q)

diff-eq : (m : Memory) {a b c d : ℕ} → a ≡ b → c ≡ d → sub32 (m a) (m c) ≡ sub32 (m b) (m d)
diff-eq m e f = λ k. sub32 (m (e k)) (m (f k))

Stops-eq : (m : Memory) {a b c d : ℕ} → a ≡ b → c ≡ d → Stops m a c → Stops m b d
Stops-eq m {a} {b} {c} {d} e f v = subst (λ x. Stops m x d) e (subst (λ y. Stops m a y) f v)

strcmp_loop_lem :
    (fuel k : ℕ) (m : Memory) (p q : ℕ)
    → Agree m p q k
    → Stops m (p + k) (q + k)
    → k < fuel
    → strcmp_loop fuel m p q ≡ some (sub32 (m (p + k)) (m (q + k)))
unfolding strcmp_loop
strcmp_loop_lem zero k m p q v e h = absurd (omega arith)
strcmp_loop_lem (suc fuel) zero m p q v e h =
    let stop : (not (m p == 0) && (m p == m q)) ≡ false = ground arith in
    rw (strcmp_loop, stop) (ap some (diff-eq m (omega arith) (omega arith)))
strcmp_loop_lem (suc fuel) (suc k) m p q v e h =
    let on : (not (m p == 0) && (m p == m q)) ≡ true = ground arith in
    rw (strcmp_loop, on)
      (strcmp_loop_lem fuel k m (p + 1) (q + 1) v.2 (Stops-eq m (omega arith) (omega arith) e)
          (omega arith)
        ∙ ap some (diff-eq m (omega arith) (omega arith)))

-- Where a string and other bytes first come apart.
meet :
    (a : ℕ) (m : Memory) (p q : ℕ)
    → IsString m p a
    → (k : ℕ) × (k ≤ a) × Agree m p q k × Stops m (p + k) (q + k)
meet zero m p q v = (0, omega arith, tt, inl (ground arith))
meet (suc a) m p q v = elim (Bool-cases (m p == m q)) [
  | inl same ↦
      let (k, le, agree, stops) = meet a m (p + 1) (q + 1) v.1 in
      (suc k, omega arith, (v.0, ground arith, agree), Stops-eq m (omega arith) (omega arith) stops)
  | inr differ ↦ (0, omega arith, tt, inr (ground arith))
]

shorter :
    (n k : ℕ) {r a b : ℕ}
    → a ≡ b
    → r ≡ (if ltb k n then a else 0)
    → r ≡ (if ltb (suc k) (suc n) then b else 0)
shorter n k e f = ground arith

strncmp_lem :
    (n k : ℕ) (m : Memory) (p q : ℕ)
    → Agree m p q k
    → Stops m (p + k) (q + k)
    → strncmp m p q n ≡ (if ltb k n then sub32 (m (p + k)) (m (q + k)) else 0)
unfolding strncmp
strncmp_lem zero k m p q v e = ground arith
strncmp_lem (suc n) zero m p q v e =
    let stop : (not (m p == 0) && (m p == m q)) ≡ false = ground arith in
    rw (strncmp, stop) (ground arith)
strncmp_lem (suc n) (suc k) m p q v e =
    let on : (not (m p == 0) && (m p == m q)) ≡ true = ground arith in
    rw (strncmp, on)
      (shorter n k (diff-eq m (omega arith) (omega arith))
        (strncmp_lem n k m (p + 1) (q + 1) v.2 (Stops-eq m (omega arith) (omega arith) e)))

-- On a string of `a` bytes `strcmp` ends. There is one position up to which the two strings agree
-- and where the first ends or they differ; the result is the difference of the bytes there, and
-- that of `strncmp` is the same, or 0 if the position is not among the first `n`.
pub strcmp_lem :
    (m : Memory) (p q a n : ℕ)
    → IsString m p a
    → a < 2 ^ 32
    → (k : ℕ) × (k ≤ a)
      × Agree m p q k
      × Stops m (p + k) (q + k)
      × (strcmp m p q ≡ some (sub32 (m (p + k)) (m (q + k))))
      × (strncmp m p q n ≡ (if ltb k n then sub32 (m (p + k)) (m (q + k)) else 0))
unfolding strcmp
strcmp_lem m p q a n v h =
    let (k, le, agree, stops) = meet a m p q v in
    (
      k,
      le,
      agree,
      stops,
      strcmp_loop_lem addresses k m p q agree stops (omega arith),
      strncmp_lem n k m p q agree stops,
    )

-- The number of equal bytes at the start of two blocks of `n`.
abbrev pub common : Memory → ℕ → ℕ → ℕ → ℕ
common m p q zero = 0
common m p q (suc n) = if m p == m q then suc (common m (p + 1) (q + 1) n) else 0

-- `memcmp` returns 0 on equal blocks, and else the difference of the first bytes that differ.
memcmp-common :
    (n : ℕ) (m : Memory) (p q : ℕ)
    → memcmp m p q n ≡ (
        if ltb (common m p q n) n
        then sub32 (m (p + common m p q n)) (m (q + common m p q n))
        else 0)
unfolding memcmp
memcmp-common zero m p q = ground arith
memcmp-common (suc n) m p q = elim (Bool-cases (m p == m q)) [
  | inl same ↦
      rw (memcmp, same)
        (shorter n (common m (p + 1) (q + 1) n) (diff-eq m (omega arith) (omega arith))
          (memcmp-common n m (p + 1) (q + 1)))
  | inr differ ↦ rw (memcmp, differ) (ground arith)
]
