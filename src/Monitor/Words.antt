-- ===== src/Monitor/Words.antt =====
-- The words of a line, and the line with zero bytes for its blanks.
use os.Base.{
  ℕ, zero, suc, ◌+◌, ◌≤◌, ◌<◌, ◌≡◌, refl, inl, inr, Bool, true, false, ◌&&◌, List, [], ◌∷◌, ltb,
  leb, ◌==◌, if◌then◌else◌, update, arith, ap, sym, ◌∙◌, Bool-cases,
}
use mathlib.Core.List.{nil≢cons, head-eq_of_cons-eq}
use os.Strings.{Memory}
use os.Monitor.{is_blank}

-- A space, a tab, a carriage return or a newline.
abbrev pub blank : ℕ → Bool
blank c = if c == 32 then true else if c == 9 then true else if c == 13 then true else c == 10

pub blank_lem : (c : ℕ) → is_blank c ≡ blank c
blank_lem c = ground arith

-- The places of the next `n` bytes at which a word starts: a byte that is not blank, at the start
-- of the line or behind a blank. `fresh` is whether such a byte would start one now.
abbrev pub words : ℕ → Bool → Memory → ℕ → List ℕ
words zero fresh m p = []
words (suc n) fresh m p =
    if blank (m p)
    then words n true m (p + 1)
    else if fresh
    then p ∷ words n false m (p + 1)
    else words n false m (p + 1)

-- `new` is `old` with a zero byte for every blank from `lo` to before `hi`.
abbrev pub IsCut : ℕ → ℕ → Memory → Memory → Type 0
IsCut lo hi old new = (j : ℕ) → new j ≡ (if leb lo j && ltb j hi && blank (old j) then 0 else old j)

pub IsCut-none : (lo : ℕ) (m : Memory) → IsCut lo lo m m
IsCut-none lo m j = ground arith

pub cut_at : (lo hi : ℕ) (old m : Memory) → IsCut lo hi old m → m hi ≡ old hi
cut_at lo hi old m c = ground (arith, c hi)

-- The line is cut one byte further.
pub IsCut-blank :
    (lo hi : ℕ) (old m : Memory)
    → lo ≤ hi
    → blank (old hi) ≡ true
    → IsCut lo hi old m
    → IsCut lo (hi + 1) old (update m hi 0)
IsCut-blank lo hi old m le b c j = elim (Bool-cases (hi == j)) [
  | inl here ↦
      let same : blank (old j) ≡ true =
        ap (λ k. blank (old k)) {x = j} {y = hi} (ground (arith, here)) ∙ b in
      let inside : (leb lo j && ltb j (hi + 1)) ≡ true = ground (arith, here) in
      let new : update m hi 0 j ≡ 0 = ground (arith, here) in new ∙ rw (inside, same) refl
  | inr there ↦
      let new : update m hi 0 j ≡ m j = ground (arith, there) in
      let side : ltb j (hi + 1) ≡ ltb j hi = ground (arith, there) in new ∙ c j ∙ rw side refl
]

pub IsCut-other :
    (lo hi : ℕ) (old m : Memory)
    → blank (old hi) ≡ false
    → IsCut lo hi old m
    → IsCut lo (hi + 1) old m
IsCut-other lo hi old m b c j = elim (Bool-cases (hi == j)) [
  | inl here ↦
      let same : blank (old j) ≡ false =
        ap (λ k. blank (old k)) {x = j} {y = hi} (ground (arith, here)) ∙ b in
      c j ∙ with_none (leb lo j) (ltb j hi) (ltb j (hi + 1)) (blank (old j)) (old j) same
  | inr there ↦ let side : ltb j (hi + 1) ≡ ltb j hi = ground (arith, there) in c j ∙ rw side refl
]
  where
    with_none :
        (a b b' e : Bool) (k : ℕ)
        → e ≡ false
        → (if a && b && e then 0 else k) ≡ (if a && b' && e then 0 else k)
    with_none a b b' e k h = rw h (both a b ∙ sym (both a b'))
      where
        both : (a b : Bool) → (if a && b && false then 0 else k) ≡ k
        both true true = refl
        both true false = refl
        both false b = refl

-- Words start in the line.
pub words-first :
    (n : ℕ) (fresh : Bool) (m : Memory) (p a : ℕ) (ws : List ℕ)
    → words n fresh m p ≡ a ∷ ws
    → (p ≤ a) × (a < p + n)
words-first zero fresh m p a ws e = absurd (nil≢cons e)
words-first (suc n) fresh m p a ws e = elim (Bool-cases (blank (m p))) [
  | inl b ↦
      let (low, high) = words-first n true m (p + 1) a ws (rw b at e) in
      (omega (arith, low), omega (arith, high))
  | inr b ↦ elim (Bool-cases fresh) [
    | inl f ↦
        let here : p ≡ a = head-eq_of_cons-eq (rw (b, f) at e) in
        (omega (arith, here), omega (arith, here))
    | inr f ↦
        let (low, high) = words-first n false m (p + 1) a ws (rw (b, f) at e) in
        (omega (arith, low), omega (arith, high))
  ]
]
