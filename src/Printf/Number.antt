-- ===== src/Printf/Number.antt =====
-- `strtol` as the inverse of `printnum`.
use os.Base.{
  ℕ, zero, suc, ◌+◌, ◌-◌, ◌*◌, ◌/◌, ◌%◌, ◌^◌, ◌≤◌, ◌<◌, ◌≡◌, ◌≢◌, refl, inl, inr, some, List, [],
  ◌∷◌, ◌++◌, map, length, replicate, leb, arith, ap, ◌∙◌, subst, Bool-cases,
}
use native.Mathlib.Nat.{mul-le-mul_left, mod-lt}
use os.Strings.{Memory}
use os.Strings.Number.{digit_value, strtol}
use os.Strings.Number.Digits.{digit_char, IsNumeral, value, bare, strtol-value}
use os.Printf.Digits.{
  digits, number, digits-one, digits-more, length-snoc, number-digits, printnum-numeral,
}
use os.Printf.{printnum, max_digits}

-- All digits are below the base.
abbrev AllBelow : ℕ → List ℕ → Type 0
AllBelow b [] = Unit {0}
AllBelow b (d ∷ ds) = (d < b) × AllBelow b ds

AllBelow-snoc : (b d : ℕ) (ds : List ℕ) → AllBelow b ds → d < b → AllBelow b (ds ++ (d ∷ []))
AllBelow-snoc b d [] v h = (h, tt)
AllBelow-snoc b d (x ∷ ds) v h = (v.0, AllBelow-snoc b d ds v.1 h)

digits-AllBelow : (k num b : ℕ) → 2 ≤ b → AllBelow b (digits k num b)
unfolding digits
digits-AllBelow zero num b lo = tt
digits-AllBelow (suc k) num b lo = elim (Bool-cases (leb b num)) [
  | inr one ↦ rw one (mod-lt num (omega arith), tt)
  | inl more ↦ rw more (
      AllBelow-snoc b (num % b) (digits k (num / b) b) (digits-AllBelow k (num / b) b lo)
        (mod-lt num (omega arith)))
]

number-grows : (b v : ℕ) (ds : List ℕ) → 1 ≤ b → v ≤ number b v ds
number-grows b v [] h = omega arith
number-grows b v (d ∷ ds) h = omega (arith, number-grows b (v * b + d) ds h, mul-le-mul_left v h)

-- Without overflow the 32-bit value is the number.
value-number :
    (b v : ℕ) (ds : List ℕ) → 1 ≤ b → number b v ds < 2 ^ 32 → value b v ds ≡ number b v ds
value-number b v [] hb h = refl
value-number b v (d ∷ ds) hb h =
    let small : v * b + d < 2 ^ 32 = omega (arith, number-grows b (v * b + d) ds hb, h) in
    ap (λ w. value b w ds) (omega (arith, small)) ∙ value-number b (v * b + d) ds hb h

-- The characters stand in memory from `s` on.
abbrev pub Holds : Memory → ℕ → List ℕ → Type 0
Holds m s [] = Unit {0}
Holds m s (c ∷ cs) = (m s ≡ c) × Holds m (s + 1) cs

Holds-IsNumeral :
    (m : Memory) (s b : ℕ) (ds : List ℕ)
    → AllBelow b ds
    → Holds m s (map digit_char ds ++ (0 ∷ []))
    → IsNumeral m s b ds
Holds-IsNumeral m s b [] v w = unfold digit_value in ground (arith, w.0)
Holds-IsNumeral m s b (d ∷ ds) v w = (v.0, w.0, Holds-IsNumeral m (s + 1) b ds v.1 w.1)

length-digits_most : (k num b : ℕ) → length (digits k num b) ≤ k
length-digits_most zero num b = unfold digits in omega arith
length-digits_most (suc k) num b = elim (Bool-cases (leb b num)) [
  | inr one ↦ rw (digits-one k num b one) (omega arith)
  | inl more ↦ rw (digits-more k num b more) (
      omega (arith, length-snoc (digits k (num / b) b) (num % b), length-digits_most k (num / b) b))
]

length-digits_some : (k num b : ℕ) → 0 < length (digits (suc k) num b)
length-digits_some k num b = elim (Bool-cases (leb b num)) [
  | inr one ↦ rw (digits-one k num b one) (omega arith)
  | inl more ↦
      rw (digits-more k num b more) (omega (arith, length-snoc (digits k (num / b) b) (num % b)))
]

strtol-list :
    (m : Memory) (s b : ℕ) (ds : List ℕ)
    → 2 ≤ b
    → b ≤ 36
    → b ≢ 16
    → 0 < length ds
    → length ds < 2 ^ 32
    → IsNumeral m s b ds
    → strtol m s b ≡ some (s + length ds, value b 0 ds)
strtol-list m s b [] lo hi ne long few n = absurd (omega arith)
strtol-list m s b (d ∷ ds) lo hi ne long few n =
    let here : IsNumeral m (s + 0) b (d ∷ ds) =
      subst (λ a. IsNumeral m a b (d ∷ ds)) {x = s} {y = s + 0} (omega arith) n in
    strtol-value m s 0 b d ds bare lo hi ne tt tt here (omega arith) (omega arith)
    ∙ ap (λ e. some (e, value b 0 (d ∷ ds))) (omega arith)

-- A number that a `long` holds, below 2^31, in a base of 2 to 15: `printnum` prints at most 64 digits, without padding
-- if no width is asked for, and `strtol` reads them back, where they stand in memory before a zero
-- byte.
pub printnum-strtol :
    (m : Memory) (s num b padc : ℕ)
    → 2 ≤ b
    → b < 16
    → num < 2 ^ 31
    → Holds m s (map digit_char (digits max_digits num b) ++ (0 ∷ []))
    → (printnum max_digits num b 0 padc ≡ some (map digit_char (digits max_digits num b)))
      × (strtol m s b ≡ some (s + length (digits max_digits num b), num))
printnum-strtol m s num b padc lo hi small w =
    let ds = digits max_digits num b in
    let some_digit = length-digits_some 63 num b in
    let few = length-digits_most 64 num b in
    let same = number-digits 63 num b lo (omega arith) in
    let n = Holds-IsNumeral m s b ds (digits-AllBelow 64 num b lo) w in
    (
      printnum-numeral 63 num b 0 padc lo (omega arith) (omega arith)
          ∙ ap (λ k. some (replicate k padc ++ map digit_char ds)) {x = 0 - length ds} {y = 0}
              (omega arith),
      strtol-list m s b ds lo (omega arith) (omega arith) some_digit (omega arith) n
          ∙ ap (λ v. some (s + length ds, v))
              (value-number b 0 ds (omega arith) (omega (arith, same)) ∙ same),
    )
