-- ===== src/Prelude/Integers.antt =====
-- Python's integers: `negsuc n` is -(n + 1). Sums, differences and orders go through the positive
-- and the negative part, which are numbers that the arithmetic tactics read.
use Prim.Native.Nat.{ℕ, suc, ◌+◌, ◌-◌}
use mathlib.Core.Bool.{Bool}
use formshift_server.Prelude.Tests.{ltb, leb, if◌then◌else◌}

pub data ℤ : Type 0 where
  pos negsuc : ℕ → ℤ

abbrev pub neg_part : ℤ → ℕ
neg_part (negsuc m) = suc m
neg_part (pos m) = 0

abbrev pub pos_part : ℤ → ℕ
pos_part (negsuc m) = 0
pos_part (pos m) = m

-- The difference of two numbers.
abbrev pub sub_ℕ : ℕ → ℕ → ℤ
sub_ℕ m n = if ltb m n then negsuc (n - m - 1) else pos (m - n)

unfoldable pub ◌+ℤ◌ : ℤ → ℤ → ℤ
x +ℤ y = sub_ℕ (pos_part x + pos_part y) (neg_part x + neg_part y)

infixl 65 ◌+ℤ◌
unfoldable pub ◌-ℤ◌ : ℤ → ℤ → ℤ
x -ℤ y = sub_ℕ (pos_part x + neg_part y) (neg_part x + pos_part y)

infixl 65 ◌-ℤ◌
abbrev pub leb_ℤ : ℤ → ℤ → Bool
leb_ℤ x y = leb (pos_part x + neg_part y) (pos_part y + neg_part x)

abbrev pub ltb_ℤ : ℤ → ℤ → Bool
ltb_ℤ x y = ltb (pos_part x + neg_part y) (pos_part y + neg_part x)
