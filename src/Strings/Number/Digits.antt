-- ===== src/Strings/Number/Digits.antt =====
-- `strtol` on a numeral.
use os.Base.{
  ℕ, zero, suc, ◌+◌, ◌*◌, ◌^◌, ◌≤◌, ◌<◌, ◌≡◌, ◌≢◌, refl, Bool, true, false, ◌||◌, none, some, List,
  [], ◌∷◌, length, ltb, ◌==◌, if◌then◌else◌, arith, ap, ◌∙◌, u32, ne→==, eq→==,
}
use os.Strings.{Memory, addresses}
use os.Strings.Number.{
  skip_blanks, skip_sign, skip_prefix, digit_value, digit_below, read_digits, from_sign, strtol,
  signed,
}

-- The character of a digit.
abbrev pub digit_char : ℕ → ℕ
digit_char d = if ltb d 10 then 48 + d else 87 + d

-- At `s` stand the digits `ds` of base `b`, and behind them something that is no digit.
abbrev pub IsNumeral : Memory → ℕ → ℕ → List ℕ → Type 0
IsNumeral m s b [] = digit_below (digit_value (m s)) b ≡ none
IsNumeral m s b (d ∷ ds) = (d < b) × (m s ≡ digit_char d) × IsNumeral m (s + 1) b ds

-- The value of digits behind digits of the value `v`, in 32 bits.
abbrev pub value : ℕ → ℕ → List ℕ → ℕ
value b v [] = v
value b v (d ∷ ds) = value b (u32 (u32 (v * b) + d)) ds

digit_char_lem : (d : ℕ) → d < 36 → digit_value (digit_char d) ≡ some d
unfolding digit_value
digit_char_lem d h = ground arith

read_digits_lem :
    (fuel b v : ℕ) (m : Memory) (s : ℕ) (ds : List ℕ)
    → b ≤ 36
    → IsNumeral m s b ds
    → length ds < fuel
    → read_digits fuel m s b v ≡ some (s + length ds, value b v ds)
unfolding read_digits
read_digits_lem zero b v m s ds hb n h = absurd (omega arith)
read_digits_lem (suc fuel) b v m s [] hb n h =
    rw (read_digits, n) (ap (λ e. some (e, v)) (omega arith))
read_digits_lem (suc fuel) b v m s (d ∷ ds) hb n h =
    let e : digit_below (digit_value (m s)) b ≡ some d =
      rw (n.1, digit_char_lem d (omega (arith, n.0))) (ground arith) in
    rw (read_digits, e)
      (read_digits_lem fuel b (u32 (u32 (v * b) + d)) m (s + 1) ds hb n.2 (omega arith)
        ∙ ap (λ e. some (e, value b (u32 (u32 (v * b) + d)) ds)) (omega arith))

from_numeral :
    (m : Memory) (s b d : ℕ) (ds : List ℕ) (neg : Bool)
    → 2 ≤ b
    → b ≤ 36
    → b ≢ 16
    → IsNumeral m s b (d ∷ ds)
    → length ds + 1 < 2 ^ 32
    → from_sign m b (s, neg) ≡ some (signed neg (s + length (d ∷ ds), value b 0 (d ∷ ds)))
from_numeral m s b d ds neg lo hi ne n h =
    let e : skip_prefix m s b ≡ (s, b) =
      unfold skip_prefix in rw (ne→== b 0 (omega arith), ne→== b 16 ne) refl in
    rw (e, read_digits_lem addresses b 0 m s (d ∷ ds) hi n (omega arith)) refl

-- A sign before a numeral.
pub data Sign : Type 0 where
  bare plus minus : Sign

abbrev pub HasSign : Memory → ℕ → Sign → Type 0
HasSign m s bare = Unit {0}
HasSign m s plus = m s ≡ 43
HasSign m s minus = m s ≡ 45

abbrev pub behind : Sign → ℕ → ℕ
behind bare s = s
behind plus s = s + 1
behind minus s = s + 1

abbrev pub is_minus : Sign → Bool
is_minus bare = false
is_minus plus = false
is_minus minus = true

-- Spaces and tabs.
abbrev pub AreBlank : Memory → ℕ → ℕ → Type 0
AreBlank m s zero = Unit {0}
AreBlank m s (suc k) = ((m s == 32) || (m s == 9)) ≡ true × AreBlank m (s + 1) k

skip_sign_lem :
    (m : Memory) (s b d : ℕ) (ds : List ℕ) (g : Sign)
    → b ≤ 36
    → HasSign m s g
    → IsNumeral m (behind g s) b (d ∷ ds)
    → skip_sign m s ≡ (behind g s, is_minus g)
unfolding skip_sign
skip_sign_lem m s b d ds bare hi g n =
    let plus_not : (m s == 43) ≡ false = ground (arith, n.1) in
    let minus_not : (m s == 45) ≡ false = ground (arith, n.1) in rw (plus_not, minus_not) refl
skip_sign_lem m s b d ds plus hi g n = rw (eq→== (m s) 43 g) refl
skip_sign_lem m s b d ds minus hi g n = rw (ne→== (m s) 43 (omega arith), eq→== (m s) 45 g) refl

not_blank :
    (m : Memory) (s b d : ℕ) (ds : List ℕ) (g : Sign)
    → b ≤ 36
    → HasSign m s g
    → IsNumeral m (behind g s) b (d ∷ ds)
    → ((m s == 32) || (m s == 9)) ≡ false
not_blank m s b d ds bare hi g n = ground (arith, n.1)
not_blank m s b d ds plus hi g n = ground arith
not_blank m s b d ds minus hi g n = ground arith

skip_blanks_lem :
    (fuel k : ℕ) (m : Memory) (s : ℕ)
    → AreBlank m s k
    → ((m (s + k) == 32) || (m (s + k) == 9)) ≡ false
    → k < fuel
    → skip_blanks fuel m s ≡ some (s + k)
unfolding skip_blanks
skip_blanks_lem zero k m s v e h = absurd (omega arith)
skip_blanks_lem (suc fuel) zero m s v e h =
    let e' : ((m s == 32) || (m s == 9)) ≡ false = ground arith in
    rw (skip_blanks, e') (ap some (omega arith))
skip_blanks_lem (suc fuel) (suc k) m s v e h =
    let e' : ((m (s + 1 + k) == 32) || (m (s + 1 + k) == 9)) ≡ false = ground arith in
    rw (skip_blanks, v.0)
      (skip_blanks_lem fuel k m (s + 1) v.1 e' (omega arith) ∙ ap some (omega arith))

-- `strtol` skips blanks, takes a sign, reads a numeral of at least one digit up to the first
-- character that is no digit of the base, and returns its value in 32 bits, negated behind a
-- minus; the base is 2 to 36 and not 16, which may have a prefix.
pub strtol-value :
    (m : Memory) (s k b d : ℕ) (ds : List ℕ) (g : Sign)
    → 2 ≤ b
    → b ≤ 36
    → b ≢ 16
    → AreBlank m s k
    → HasSign m (s + k) g
    → IsNumeral m (behind g (s + k)) b (d ∷ ds)
    → k < 2 ^ 32
    → length ds + 1 < 2 ^ 32
    → strtol m s b
      ≡ some (signed (is_minus g) (behind g (s + k) + length (d ∷ ds), value b 0 (d ∷ ds)))
unfolding strtol
strtol-value m s k b d ds g lo hi ne blank sign n hk h =
    rw
      (
        strtol,
        skip_blanks_lem addresses k m s blank (not_blank m (s + k) b d ds g hi sign n) hk,
        skip_sign_lem m (s + k) b d ds g hi sign n,
      )
      (from_numeral m (behind g (s + k)) b d ds (is_minus g) lo hi ne n h)
