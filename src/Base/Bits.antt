-- ===== src/Base/Bits.antt =====
-- The bitwise operators of C at variables, as arithmetic. The native operations compute at
-- numerals only: here they are read through their lowest binary digit.
use Prim.Native.Nat.{
  ℕ, zero, suc, ◌+◌, ◌-◌, ◌*◌, ◌/◌, ◌%◌, ◌^◌, ◌≤◌, ◌<◌, min, max, bit_and, bit_or, digits,
  bit_and-bitwise, bit_or-bitwise,
}
use mathlib.Core.Path.{◌≡◌, refl, ap}
use native.Mathlib.Nat.{pow-suc}
use native.Mathlib.Omega.{arith}

-- Two amounts of fuel that both cover the number give the same digits.
module _ (pad : ℕ → ℕ) (f : ℕ → ℕ → ℕ) where
  digits-agree : (a b k l : ℕ) → a ≤ k → a ≤ l → digits pad f k a b ≡ digits pad f l a b
  digits-agree zero b zero zero p q = refl
  digits-agree zero b zero (suc l) p q = refl
  digits-agree zero b (suc k) zero p q = refl
  digits-agree zero b (suc k) (suc l) p q = refl
  digits-agree (suc a) b zero l p q = absurd (omega arith)
  digits-agree (suc a) b (suc k) zero p q = absurd (omega arith)
  digits-agree (suc a) b (suc k) (suc l) p q =
      ap (λ t. t * 2 + f (suc a % 2) (b % 2))
        (digits-agree (suc a / 2) (b / 2) k l (omega arith) (omega arith))

and_lowest : (a b : ℕ) → bit_and a b ≡ bit_and (a / 2) (b / 2) * 2 + min (a % 2) (b % 2)
and_lowest zero b = omega (arith, bit_and-bitwise zero b, bit_and-bitwise zero (b / 2))
and_lowest (suc a) b = omega (
  arith,
  bit_and-bitwise (suc a) b,
  bit_and-bitwise (suc a / 2) (b / 2),
  digits-agree (λ _. 0) min (suc a / 2) (b / 2) a (suc a / 2) (omega arith) (omega arith),
)

or_lowest : (a b : ℕ) → bit_or a b ≡ bit_or (a / 2) (b / 2) * 2 + max (a % 2) (b % 2)
or_lowest zero b = omega (arith, bit_or-bitwise zero b, bit_or-bitwise zero (b / 2))
or_lowest (suc a) b = omega (
  arith,
  bit_or-bitwise (suc a) b,
  bit_or-bitwise (suc a / 2) (b / 2),
  digits-agree (λ y. y) max (suc a / 2) (b / 2) a (suc a / 2) (omega arith) (omega arith),
)

pub zero-bit_and : (b : ℕ) → bit_and 0 b ≡ 0
zero-bit_and b = bit_and-bitwise 0 b

pub zero-bit_or : (b : ℕ) → bit_or 0 b ≡ b
zero-bit_or b = bit_or-bitwise 0 b

double-pow : (q k : ℕ) → q * 2 ^ suc k ≡ q * 2 ^ k * 2
double-pow q k = omega (arith, ap (λ (t : ℕ). q * t) (pow-suc 2 k))

-- A number is a high part and `k` low digits, and the operators work on the two apart.
pub and_split :
    (k q p r t : ℕ)
    → r < 2 ^ k
    → t < 2 ^ k
    → bit_and (q * 2 ^ k + r) (p * 2 ^ k + t) ≡ bit_and q p * 2 ^ k + bit_and r t
and_split zero q p r t hr ht = ground (arith, zero-bit_and t)
and_split (suc k) q p r t hr ht = ground (
  arith,
  pow-suc 2 k,
  double-pow q k,
  double-pow p k,
  double-pow (bit_and q p) k,
  and_lowest (q * 2 ^ suc k + r) (p * 2 ^ suc k + t),
  and_lowest r t,
  and_split k q p (r / 2) (t / 2) (omega (arith, pow-suc 2 k)) (omega (arith, pow-suc 2 k)),
)

pub or_split :
    (k q p r t : ℕ)
    → r < 2 ^ k
    → t < 2 ^ k
    → bit_or (q * 2 ^ k + r) (p * 2 ^ k + t) ≡ bit_or q p * 2 ^ k + bit_or r t
or_split zero q p r t hr ht = ground (arith, zero-bit_or t)
or_split (suc k) q p r t hr ht = ground (
  arith,
  pow-suc 2 k,
  double-pow q k,
  double-pow p k,
  double-pow (bit_or q p) k,
  or_lowest (q * 2 ^ suc k + r) (p * 2 ^ suc k + t),
  or_lowest r t,
  or_split k q p (r / 2) (t / 2) (omega (arith, pow-suc 2 k)) (omega (arith, pow-suc 2 k)),
)

-- Every number is below some power of two.
lt-two_pow : (a : ℕ) → a < 2 ^ a
lt-two_pow zero = omega arith
lt-two_pow (suc a) = omega (arith, pow-suc 2 a, lt-two_pow a)

and_zero_below : (k a : ℕ) → a < 2 ^ k → bit_and a 0 ≡ 0
and_zero_below zero a h = let e : a ≡ 0 = omega arith in rw e
and_zero_below (suc k) a h =
    omega (arith, and_lowest a 0, and_zero_below k (a / 2) (omega (arith, pow-suc 2 k)))

or_zero_below : (k a : ℕ) → a < 2 ^ k → bit_or a 0 ≡ a
or_zero_below zero a h = let e : a ≡ 0 = omega arith in rw e
or_zero_below (suc k) a h =
    omega (arith, or_lowest a 0, or_zero_below k (a / 2) (omega (arith, pow-suc 2 k)))

pub bit_and-zero : (a : ℕ) → bit_and a 0 ≡ 0
bit_and-zero a = and_zero_below a a (lt-two_pow a)

pub bit_or-zero : (a : ℕ) → bit_or a 0 ≡ a
bit_or-zero a = or_zero_below a a (lt-two_pow a)

-- A mask of ones keeps a number that fits it.
pub and_ones : (k a : ℕ) → a < 2 ^ k → bit_and a (2 ^ k - 1) ≡ a
and_ones zero a h = omega (arith, bit_and-zero a)
and_ones (suc k) a h = ground (
  arith,
  pow-suc 2 k,
  and_lowest a (2 ^ suc k - 1),
  and_ones k (a / 2) (omega (arith, pow-suc 2 k)),
)

-- `x & 1`
pub and_one : (a : ℕ) → bit_and a 1 ≡ a % 2
and_one a = omega (arith, and_lowest a 1, bit_and-zero (a / 2))

-- `x & 2`
pub and_two : (a : ℕ) → bit_and a 2 ≡ a / 2 % 2 * 2
and_two a = omega (arith, and_lowest a 2, and_one (a / 2))

-- `x | 1`
pub or_one : (a : ℕ) → bit_or a 1 ≡ a / 2 * 2 + 1
or_one a = omega (arith, or_lowest a 1, bit_or-zero (a / 2))

-- `x & 0x3ff`
pub and_ten_ones : (a : ℕ) → bit_and a 0x3ff ≡ a % 1024
and_ten_ones a = ground (
  arith,
  and_split 10 (a / 1024) 0 (a % 1024) 0x3ff (omega arith) (omega arith),
  bit_and-zero (a / 1024),
  and_ones 10 (a % 1024) (omega arith),
)

-- `x & 0xfff`
pub and_twelve_ones : (a : ℕ) → bit_and a 0xfff ≡ a % 4096
and_twelve_ones a = ground (
  arith,
  and_split 12 (a / 4096) 0 (a % 4096) 0xfff (omega arith) (omega arith),
  bit_and-zero (a / 4096),
  and_ones 12 (a % 4096) (omega arith),
)

-- `x & ~0xfff`, of a 32-bit number
pub and_page_mask : (a : ℕ) → a < 2 ^ 32 → bit_and a 0xffff_f000 ≡ a / 4096 * 4096
and_page_mask a h = ground (
  arith,
  and_split 12 (a / 4096) 0xf_ffff (a % 4096) 0 (omega arith) (omega arith),
  bit_and-zero (a % 4096),
  and_ones 20 (a / 4096) (omega arith),
)

-- Flags below bit 12 are added to a page's address.
pub or_page : (q r : ℕ) → r < 4096 → bit_or (q * 4096) r ≡ q * 4096 + r
or_page q r h =
    ground (arith, or_split 12 q 0 0 r (omega arith) (omega arith), bit_or-zero q, zero-bit_or r)

-- Flags below bit 12 meet the flags that an entry has.
pub or_low : (q a b : ℕ) → a < 4096 → b < 4096 → bit_or (q * 4096 + a) b ≡ q * 4096 + bit_or a b
or_low q a b ha hb = ground (arith, or_split 12 q 0 a b ha hb, bit_or-zero q)
