-- ===== src/Printf/Digits.antt =====
-- `printnum`: the digits that it prints.
use os.Base.{
  ℕ, zero, suc, ◌+◌, ◌-◌, ◌*◌, ◌/◌, ◌%◌, ◌^◌, ◌≤◌, ◌<◌, ◌≡◌, refl, inl, inr, true, false, some,
  List, [], ◌∷◌, ◌++◌, map, length, replicate, get_or, leb, if◌then◌else◌, arith, ap, ◌∙◌, sym,
  Bool-cases,
}
use native.Mathlib.Nat.{
  div-add-mod, mul-le-mul_left, mul-le-mul_right, pow-suc, mod-lt, mod-eq_of_lt, zero-mul,
  div-add-mod',
}
use os.Strings.Number.Digits.{digit_char}
use os.Printf.{digit_chars, last_digit, behind_digits, printnum, max_digits}

-- The digits of `num`, the first one first.
unfoldable pub digits : ℕ → ℕ → ℕ → List ℕ
digits zero num base = []
digits (suc fuel) num base =
    if leb base num then digits fuel (num / base) base ++ (num % base ∷ []) else num % base ∷ []

-- The number that they stand for.
abbrev pub number : ℕ → ℕ → List ℕ → ℕ
number base v [] = v
number base v (d ∷ ds) = number base (v * base + d) ds

-- The list holds the characters of the digits from `i` on.
abbrev Lists : ℕ → List ℕ → Type 0
Lists i [] = Unit {0}
Lists i (c ∷ cs) = (c ≡ digit_char i) × Lists (suc i) cs

Lists-get :
    (cs : List ℕ) (i d : ℕ) → Lists i cs → d < length cs → get_or cs d 0 ≡ digit_char (i + d)
Lists-get [] i d v h = absurd (omega arith)
Lists-get (c ∷ cs) i zero v h = v.0 ∙ ap digit_char (omega arith)
Lists-get (c ∷ cs) i (suc d) v h =
    Lists-get cs (suc i) d v.1 (omega arith) ∙ ap digit_char (omega arith)

digit_chars-Lists : Lists 0 digit_chars
digit_chars-Lists = ground arith

get_or-digit_chars : (d : ℕ) → d < 16 → get_or digit_chars d 0 ≡ digit_char d
get_or-digit_chars d h = Lists-get digit_chars 0 d digit_chars-Lists h ∙ ap digit_char (omega arith)

map-append : (f : ℕ → ℕ) (xs ys : List ℕ) → map f (xs ++ ys) ≡ map f xs ++ map f ys
map-append f [] ys = refl
map-append f (x ∷ xs) ys = ap (λ l. f x ∷ l) (map-append f xs ys)

append_assoc : (xs ys zs : List ℕ) → (xs ++ ys) ++ zs ≡ xs ++ (ys ++ zs)
append_assoc [] ys zs = refl
append_assoc (x ∷ xs) ys zs = ap (λ l. x ∷ l) (append_assoc xs ys zs)

-- A base of 2 or more takes a binary digit off at least.
quotient_small : (num b k : ℕ) → 2 ≤ b → num < 2 ^ suc k → num / b < 2 ^ k
quotient_small num b k hb h = omega (
  arith,
  div-add-mod num b,
  mul-le-mul_left (num / b) hb,
  mul-le-mul_right (num / b) hb,
  pow-suc 2 k,
)

last_digit_lem : (num b : ℕ) → 2 ≤ b → b ≤ 16 → last_digit num b ≡ map digit_char (num % b ∷ [])
last_digit_lem num b lo hi =
    let small : num % b < b = mod-lt num (omega arith) in
    ap (λ c. c ∷ []) (get_or-digit_chars (num % b) (omega (arith, small)))

pub length-snoc : (xs : List ℕ) (x : ℕ) → length (xs ++ (x ∷ [])) ≡ suc (length xs)
length-snoc [] x = refl
length-snoc (y ∷ xs) x = ap suc (length-snoc xs x)

module _ (k num b : ℕ) where
  pub digits-one : leb b num ≡ false → digits (suc k) num b ≡ num % b ∷ []
  unfolding digits
  digits-one one = rw one refl

  pub digits-more : leb b num ≡ true → digits (suc k) num b ≡ digits k (num / b) b ++ (num % b ∷ [])
  unfolding digits
  digits-more more = rw more refl

  printnum-more :
      (width padc : ℕ)
      → leb b num ≡ true
      → printnum (suc k) num b width padc
        ≡ behind_digits (printnum k (num / b) b (width - 1) padc) (last_digit num b)
  unfolding printnum
  printnum-more width padc more = rw (printnum, more) refl

-- The pad characters that are missing to `width`, then the digits.
abbrev pub numeral : ℕ → ℕ → List ℕ → List ℕ
numeral width padc ds = replicate (width - length ds) padc ++ map digit_char ds

printnum-one :
    (k num b width padc : ℕ)
    → 2 ≤ b
    → b ≤ 16
    → leb b num ≡ false
    → printnum (suc k) num b width padc ≡ some (numeral width padc (digits (suc k) num b))
unfolding printnum
printnum-one k num b width padc lo hi one =
    rw (printnum, one)
      (ap (λ l. some (replicate (width - 1) padc ++ l)) (last_digit_lem num b lo hi)
        ∙ ap (λ ds. some (numeral width padc ds)) (sym (digits-one k num b one)))

numeral-snoc :
    (num b width padc : ℕ) (ds : List ℕ)
    → 2 ≤ b
    → b ≤ 16
    → numeral (width - 1) padc ds ++ last_digit num b ≡ numeral width padc (ds ++ (num % b ∷ []))
numeral-snoc num b width padc ds lo hi =
    let pads = replicate (width - 1 - length ds) padc in
    append_assoc pads (map digit_char ds) (last_digit num b)
    ∙ ap (λ l. pads ++ (map digit_char ds ++ l)) (last_digit_lem num b lo hi)
    ∙ ap (λ l. pads ++ l) (sym (map-append digit_char ds (num % b ∷ [])))
    ∙ ap (λ n. replicate n padc ++ map digit_char (ds ++ (num % b ∷ [])))
        (omega (arith, length-snoc ds (num % b)))

pub printnum-numeral :
    (k num b width padc : ℕ)
    → 2 ≤ b
    → b ≤ 16
    → num < 2 ^ suc k
    → printnum (suc k) num b width padc ≡ some (numeral width padc (digits (suc k) num b))
printnum-numeral zero num b width padc lo hi h =
    printnum-one zero num b width padc lo hi (ground arith)
printnum-numeral (suc k) num b width padc lo hi h = elim (Bool-cases (leb b num)) [
  | inr one ↦ printnum-one (suc k) num b width padc lo hi one
  | inl more ↦
      let ds = digits (suc k) (num / b) b in
      printnum-more (suc k) num b width padc more
      ∙ ap (λ o. behind_digits o (last_digit num b))
          (printnum-numeral k (num / b) b (width - 1) padc lo hi
            (quotient_small num b (suc k) lo h))
      ∙ ap some (numeral-snoc num b width padc ds lo hi)
      ∙ ap (λ l. some (numeral width padc l)) (sym (digits-more (suc k) num b more))
]

number-snoc : (b v d : ℕ) (ds : List ℕ) → number b v (ds ++ (d ∷ [])) ≡ number b v ds * b + d
number-snoc b v d [] = refl
number-snoc b v d (x ∷ ds) = number-snoc b (v * b + x) d ds

number-one : (k num b : ℕ) → 2 ≤ b → leb b num ≡ false → number b 0 (digits (suc k) num b) ≡ num
number-one k num b lo one =
    rw (digits-one k num b one)
      (omega (arith, mod-eq_of_lt {n = num} {m = b} (ground arith), zero-mul b))

pub number-digits :
    (k num b : ℕ) → 2 ≤ b → num < 2 ^ suc k → number b 0 (digits (suc k) num b) ≡ num
number-digits zero num b lo h = number-one zero num b lo (ground arith)
number-digits (suc k) num b lo h = elim (Bool-cases (leb b num)) [
  | inr one ↦ number-one (suc k) num b lo one
  | inl more ↦
      ap (number b 0) (digits-more (suc k) num b more)
      ∙ number-snoc b 0 (num % b) (digits (suc k) (num / b) b)
      ∙ ap (λ q. q * b + num % b)
          (number-digits k (num / b) b lo (quotient_small num b (suc k) lo h))
      ∙ div-add-mod' num b
]

-- `printnum` ends on every number of 64 bits. It prints the digits of the number in the base,
-- padded on the left to the width.
pub printnum_lem :
    (num b width padc : ℕ)
    → 2 ≤ b
    → b ≤ 16
    → num < 2 ^ 64
    → (printnum max_digits num b width padc ≡ some (numeral width padc (digits max_digits num b)))
      × (number b 0 (digits max_digits num b) ≡ num)
printnum_lem num b width padc lo hi h =
    (printnum-numeral 63 num b width padc lo hi h, number-digits 63 num b lo h)
