-- ===== src/Prelude/Int.antt =====
-- Python's integers: a sign and a size over the native numbers, with subtraction and order.
use Prim.Native.Nat.{ℕ, suc, ◌+◌, ◌-◌}
use mathlib.Core.Bool.{Bool}
use new_logistic.Prelude.Tests.{ltb, leb, if◌then◌else◌}

-- `negsuc n` is -(n + 1).
pub data ℤ : Type 0 where
  pos : ℕ → ℤ
  negsuc : ℕ → ℤ

-- An integer is the difference of its two parts.
abbrev pub plus_part : ℤ → ℕ
plus_part (pos n) = n
plus_part (negsuc n) = 0

abbrev pub minus_part : ℤ → ℕ
minus_part (pos n) = 0
minus_part (negsuc n) = suc n

abbrev pub difference : ℕ → ℕ → ℤ
difference m n = if leb n m then pos (m - n) else negsuc (n - m - 1)

infixl 60 ◌-ℤ◌
abbrev pub ◌-ℤ◌ : ℤ → ℤ → ℤ
a -ℤ b = difference (plus_part a + minus_part b) (plus_part b + minus_part a)

-- `a < b`
abbrev pub below : ℤ → ℤ → Bool
below a b = ltb (plus_part a + minus_part b) (plus_part b + minus_part a)

-- `a <= b`
abbrev pub at_most : ℤ → ℤ → Bool
at_most a b = leb (plus_part a + minus_part b) (plus_part b + minus_part a)
