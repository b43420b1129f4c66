-- ===== src/Base/Int.antt =====
-- Signed integers over the native numbers, and the C++ `int` of a size.
use Prim.Native.Nat.{ℕ, zero, suc, ◌+◌, ◌-◌, ◌*◌, ◌/◌, ◌%◌, ◌^◌, ◌<◌}
use mathlib.Core.Path.{◌≡◌}
use mathlib.Core.Bool.{Bool, true, false}
use native.Mathlib.Omega.{arith}
use judge_system.Base.Bools.{ltb, leb, ◌==◌, if◌then◌else◌}

-- `negsuc n` is -(n + 1).
pub data ℤ : Type 0 where
  pos : ℕ → ℤ
  negsuc : ℕ → ℤ

abbrev pub is_negative : ℤ → Bool
is_negative (pos n) = false
is_negative (negsuc n) = true

abbrev pub eq_ℤ : ℤ → ℤ → Bool
eq_ℤ (pos a) (pos b) = a == b
eq_ℤ (negsuc a) (negsuc b) = a == b
eq_ℤ (pos a) (negsuc b) = false
eq_ℤ (negsuc a) (pos b) = false

-- a ≤ b
abbrev pub leb_ℤ : ℤ → ℤ → Bool
leb_ℤ (pos a) (pos b) = leb a b
leb_ℤ (negsuc a) (negsuc b) = leb b a
leb_ℤ (pos a) (negsuc b) = false
leb_ℤ (negsuc a) (pos b) = true

-- (int)x for a `size_t` x: the low 32 bits, read as two's complement.
unfoldable pub to_int : ℕ → ℤ
to_int x = let low = x % 2 ^ 32 in if ltb low (2 ^ 31) then pos low else negsuc (2 ^ 32 - 1 - low)

pub to_int-small : (x : ℕ) → x < 2 ^ 31 → to_int x ≡ pos x
unfolding to_int
to_int-small x h = ground arith

-- k * a, for a positive factor.
abbrev pub scale_ℤ : ℕ → ℤ → ℤ
scale_ℤ k (pos n) = pos (k * n)
scale_ℤ k (negsuc n) = negsuc (k * (n + 1) - 1)

-- a - b, as an integer.
abbrev pub sub_ℕ : ℕ → ℕ → ℤ
sub_ℕ a b = if leb b a then pos (a - b) else negsuc (b - a - 1)

infixl 65 ◌+ℤ◌
abbrev pub ◌+ℤ◌ : ℤ → ℤ → ℤ
pos a +ℤ pos b = pos (a + b)
pos a +ℤ negsuc b = sub_ℕ a (b + 1)
negsuc a +ℤ pos b = sub_ℕ b (a + 1)
negsuc a +ℤ negsuc b = negsuc (a + b + 1)

abbrev pub is_positive : ℤ → Bool
is_positive (pos n) = ltb 0 n
is_positive (negsuc n) = false

-- The loops from 0 below an int run this often.
abbrev pub to_count : ℤ → ℕ
to_count (pos n) = n
to_count (negsuc n) = 0

abbrev pub neg_ℤ : ℤ → ℤ
neg_ℤ (pos zero) = pos 0
neg_ℤ (pos (suc n)) = negsuc n
neg_ℤ (negsuc n) = pos (suc n)

infixl 65 ◌-ℤ◌
abbrev pub ◌-ℤ◌ : ℤ → ℤ → ℤ
a -ℤ b = a +ℤ neg_ℤ b

-- z / k, towards 0.
abbrev pub quot_ℤ : ℤ → ℕ → ℤ
quot_ℤ (pos n) k = pos (n / k)
quot_ℤ (negsuc n) k = neg_ℤ (pos ((n + 1) / k))

-- z >> k
abbrev pub shift_right : ℤ → ℕ → ℤ
shift_right (pos n) k = pos (n / 2 ^ k)
shift_right (negsuc n) k = negsuc (n / 2 ^ k)

abbrev pub max_ℤ : ℤ → ℤ → ℤ
max_ℤ a b = if leb_ℤ b a then a else b
