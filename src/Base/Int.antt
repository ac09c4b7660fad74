-- ===== src/Base/Int.antt =====
-- `int` of C as an integer; the code that uses it stays far from the ends of its range.
use Prim.Native.Nat.{ℕ, zero, suc, ◌+◌, ◌-◌, ◌/◌, ◌<◌}
use mathlib.Core.Path.{◌≡◌}
use mathlib.Core.Bool.{Bool}
use native.Mathlib.Omega.{arith}
use os.Base.Tests.{ltb, leb, if◌then◌else◌}

-- `negsuc n` is -(n + 1).
pub data ℤ : Type 0 where
  pos : ℕ → ℤ
  negsuc : ℕ → ℤ

abbrev pub pos_part : ℤ → ℕ
pos_part (pos n) = n
pos_part (negsuc n) = 0

abbrev pub neg_part : ℤ → ℕ
neg_part (pos n) = 0
neg_part (negsuc n) = suc n

-- a - b, as an integer.
abbrev pub sub_ℕ : ℕ → ℕ → ℤ
sub_ℕ a b = if leb b a then pos (a - b) else negsuc (b - a - 1)

infixl 65 ◌+ℤ◌ ◌-ℤ◌
unfoldable pub ◌+ℤ◌ : ℤ → ℤ → ℤ
a +ℤ b = sub_ℕ (pos_part a + pos_part b) (neg_part a + neg_part b)

unfoldable pub ◌-ℤ◌ : ℤ → ℤ → ℤ
a -ℤ b = sub_ℕ (pos_part a + neg_part b) (neg_part a + pos_part b)

-- `a / 2`, which C rounds towards 0
unfoldable pub half : ℤ → ℤ
half (pos n) = pos (n / 2)
half (negsuc n) = sub_ℕ 0 (suc n / 2)

abbrev pub ltb_ℤ : ℤ → ℤ → Bool
ltb_ℤ a b = ltb (pos_part a + neg_part b) (pos_part b + neg_part a)

abbrev pub leb_ℤ : ℤ → ℤ → Bool
leb_ℤ a b = leb (pos_part a + neg_part b) (pos_part b + neg_part a)

-- The number before `k`.
abbrev pub prev : ℕ → ℤ
prev k = sub_ℕ k 1

pub leb-prev : (l k : ℕ) → leb_ℤ (pos l) (prev k) ≡ ltb l k
leb-prev l k = ground arith

pub ltb-prev : (l k : ℕ) → ltb_ℤ (prev k) (pos l) ≡ leb k l
ltb-prev l k = ground arith

pub prev-suc : (k : ℕ) → prev (suc k) ≡ pos k
prev-suc k = ground arith

pub prev-sub : (k : ℕ) → pos k -ℤ pos 1 ≡ prev k
unfolding ◌-ℤ◌
prev-sub k = ground arith

pub pos-add : (a b : ℕ) → pos a +ℤ pos b ≡ pos (a + b)
unfolding ◌+ℤ◌
pos-add a b = ground arith

pub half_middle : (l k : ℕ) → l < k → half (pos l +ℤ prev k) ≡ pos ((l + k - 1) / 2)
unfolding half ◌+ℤ◌
half_middle l zero h = elim h [ ]
half_middle l (suc k) h = ground arith
