-- ===== src/Strings/Scan.antt =====
-- Strings in memory, and the functions that look through one.
use os.Base.{
  ℕ, zero, suc, ◌+◌, ◌%◌, ◌^◌, ◌<◌, ◌≡◌, ◌≢◌, refl, ◌⊎◌, inl, inr, Option, none, some, min, ◌==◌,
  if◌then◌else◌, arith, ap, ◌∙◌, Bool-cases, ne→==, eq→==, update,
}
use os.Strings.{
  Memory, addresses, strlen_loop, strlen, strnlen_loop, strnlen, strchr_loop, strchr, strfind_loop,
  strfind, memfind,
}

-- At `s` stand `n` bytes that are not zero, and a zero byte behind them.
abbrev pub IsString : Memory → ℕ → ℕ → Type 0
IsString m s zero = m s ≡ 0
IsString m s (suc n) = (m s ≢ 0) × IsString m (s + 1) n

pub IsString-update :
    (m : Memory) (s n d b : ℕ)
    → (d < s) ⊎ (s + n < d)
    → IsString m s n
    → IsString (update m d b) s n
IsString-update m s zero d b out v = ground arith
IsString-update m s (suc n) d b out v =
    let e : update m d b s ≡ m s = ground arith in
    (rw e v.0, IsString-update m (s + 1) n d b (omega arith) v.1)

strlen_loop_lem :
    (fuel n : ℕ) (m : Memory) (s k : ℕ)
    → IsString m s n
    → n < fuel
    → strlen_loop fuel m s k ≡ some (k + n)
unfolding strlen_loop
strlen_loop_lem zero n m s k v h = absurd (omega arith)
strlen_loop_lem (suc fuel) zero m s k v h =
    rw (strlen_loop, eq→== (m s) 0 v) (ap some (omega arith))
strlen_loop_lem (suc fuel) (suc n) m s k v h =
    rw (strlen_loop, ne→== (m s) 0 v.0)
      (strlen_loop_lem fuel n m (s + 1) (k + 1) v.1 (omega arith) ∙ ap some (omega arith))

strnlen_loop_lem :
    (size n : ℕ) (m : Memory) (s k : ℕ) → IsString m s n → strnlen_loop size m s k ≡ k + min n size
unfolding strnlen_loop
strnlen_loop_lem zero n m s k v = omega arith
strnlen_loop_lem (suc size) zero m s k v = rw (strnlen_loop, eq→== (m s) 0 v) (omega arith)
strnlen_loop_lem (suc size) (suc n) m s k v =
    rw (strnlen_loop, ne→== (m s) 0 v.0)
      (strnlen_loop_lem size n m (s + 1) (k + 1) v.1 ∙ omega arith)

-- On a string of `n` bytes `strlen` ends and returns `n`, and `strnlen` the smaller of `n` and its
-- bound.
pub strlen_lem :
    (m : Memory) (s n size : ℕ)
    → IsString m s n
    → n < 2 ^ 32
    → (strlen m s ≡ some n) × (strnlen m s size ≡ min n size)
unfolding strlen strnlen
strlen_lem m s n size v h = (
  strlen_loop_lem addresses n m s 0 v h ∙ ap some (omega arith),
  strnlen_loop_lem size n m s 0 v ∙ omega arith,
)

-- The first address with the byte `c`, of `n` addresses from `s` on.
abbrev pub find : Memory → ℕ → ℕ → ℕ → Option ℕ
find m s c zero = none
find m s c (suc n) = if m s == c then some s else find m (s + 1) c n

abbrev pub or_end : Option ℕ → ℕ → ℕ
or_end none e = e
or_end (some a) e = a

strchr_loop_lem :
    (fuel n : ℕ) (m : Memory) (s c : ℕ)
    → IsString m s n
    → n < fuel
    → strchr_loop fuel m s c ≡ some (find m s c n)
unfolding strchr_loop
strchr_loop_lem zero n m s c v h = absurd (omega arith)
strchr_loop_lem (suc fuel) zero m s c v h = rw (strchr_loop, eq→== (m s) 0 v) refl
strchr_loop_lem (suc fuel) (suc n) m s c v h = elim (Bool-cases (m s == c)) [
  | inl hit ↦ rw (strchr_loop, ne→== (m s) 0 v.0, hit) refl
  | inr miss ↦
      rw (strchr_loop, ne→== (m s) 0 v.0, miss)
        (strchr_loop_lem fuel n m (s + 1) c v.1 (omega arith))
]

strfind_loop_lem :
    (fuel n : ℕ) (m : Memory) (s c : ℕ)
    → IsString m s n
    → n < fuel
    → strfind_loop fuel m s c ≡ some (or_end (find m s c n) (s + n))
unfolding strfind_loop
strfind_loop_lem zero n m s c v h = absurd (omega arith)
strfind_loop_lem (suc fuel) zero m s c v h =
    rw (strfind_loop, eq→== (m s) 0 v) (ap some (omega arith))
strfind_loop_lem (suc fuel) (suc n) m s c v h = elim (Bool-cases (m s == c)) [
  | inl hit ↦ rw (strfind_loop, ne→== (m s) 0 v.0, hit) refl
  | inr miss ↦
      rw (strfind_loop, ne→== (m s) 0 v.0, miss)
        (strfind_loop_lem fuel n m (s + 1) c v.1 (omega arith)
          ∙ ap (λ e. some (or_end (find m (s + 1) c n) e)) (omega arith))
]

-- In a string both return the first address with the byte `c`; with none there, `strchr` returns
-- NULL and `strfind` the address of the terminator.
pub strchr-strfind :
    (m : Memory) (s n c : ℕ)
    → IsString m s n
    → n < 2 ^ 32
    → (strchr m s c ≡ some (find m s c n)) × (strfind m s c ≡ some (or_end (find m s c n) (s + n)))
unfolding strchr strfind
strchr-strfind m s n c v h =
    (strchr_loop_lem addresses n m s c v h, strfind_loop_lem addresses n m s c v h)

-- `memfind` returns the first of `n` addresses that has the low byte of `c`, or the end.
pub memfind-find :
    (n : ℕ) (m : Memory) (s c : ℕ) → memfind m s c n ≡ or_end (find m s (c % 256) n) (s + n)
unfolding memfind
memfind-find zero m s c = omega arith
memfind-find (suc n) m s c = elim (Bool-cases (m s == c % 256)) [
  | inl hit ↦ rw (memfind, hit) refl
  | inr miss ↦
      rw (memfind, miss)
        (memfind-find n m (s + 1) c ∙ ap (or_end (find m (s + 1) (c % 256) n)) (omega arith))
]
