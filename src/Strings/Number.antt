-- ===== src/Strings/Number.antt =====
-- `strtol`. A `long` is a 32-bit word.
pub mod Digits
use os.Base.{
  ℕ, zero, suc, ◌+◌, ◌-◌, ◌*◌, ◌/◌, ◌%◌, ◌^◌, Bool, true, false, ◌&&◌, ◌||◌, Option, none, some,
  ltb, leb, ◌==◌, if◌then◌else◌, u32, sub32,
}
use os.Strings.{Memory, addresses}

unfoldable pub skip_blanks : ℕ → Memory → ℕ → Option ℕ
skip_blanks zero m s = none
skip_blanks (suc fuel) m s = elim ((m s == 32) || (m s == 9)) [
  | true ↦ skip_blanks fuel m (s + 1)
  | false ↦ some s
]

-- Behind a sign, and whether it was a minus.
unfoldable pub skip_sign : Memory → ℕ → ℕ × Bool
skip_sign m s =
    if m s == 43 then (s + 1, false) else if m s == 45 then (s + 1, true) else (s, false)

-- Behind the prefix of the base, and the base.
unfoldable pub skip_prefix : Memory → ℕ → ℕ → ℕ × ℕ
skip_prefix m s base =
    if ((base == 0) || (base == 16)) && ((m s == 48) && (m (s + 1) == 120))
    then (s + 2, 16)
    else if (base == 0) && (m s == 48)
    then (s + 1, 8)
    else if base == 0
    then (s, 10)
    else (s, base)

unfoldable pub digit_value : ℕ → Option ℕ
digit_value c =
    if leb 48 c && leb c 57
    then some (c - 48)
    else if leb 97 c && leb c 122
    then some (c - 97 + 10)
    else if leb 65 c && leb c 90
    then some (c - 65 + 10)
    else none

abbrev pub digit_below : Option ℕ → ℕ → Option ℕ
digit_below none base = none
digit_below (some d) base = if leb base d then none else some d

-- The loop over the digits: where it ends, and the value.
unfoldable pub read_digits : ℕ → Memory → ℕ → ℕ → ℕ → Option (ℕ × ℕ)
read_digits zero m s base val = none
read_digits (suc fuel) m s base val = elim (digit_below (digit_value (m s)) base) [
  | none ↦ some (s, val)
  | some d ↦ read_digits fuel m (s + 1) base (u32 (u32 (val * base) + d))
]

abbrev pub signed : Bool → ℕ × ℕ → ℕ × ℕ
signed neg (s, val) = (s, if neg then sub32 0 val else val)

abbrev pub finish : Bool → Option (ℕ × ℕ) → Option (ℕ × ℕ)
finish neg none = none
finish neg (some r) = some (signed neg r)

abbrev pub from_digits : Memory → Bool → ℕ × ℕ → Option (ℕ × ℕ)
from_digits m neg (s, base) = finish neg (read_digits addresses m s base 0)

abbrev pub from_sign : Memory → ℕ → ℕ × Bool → Option (ℕ × ℕ)
from_sign m base (s, neg) = from_digits m neg (skip_prefix m s base)

-- What is stored through `endptr`, and the value.
unfoldable pub strtol : Memory → ℕ → ℕ → Option (ℕ × ℕ)
strtol m s base = elim (skip_blanks addresses m s) [
  | none ↦ none
  | some t ↦ from_sign m base (skip_sign m t)
]
