-- ===== src/Prelude/Int.antt =====
-- Signed integers over the native numbers, under the library's names.
use androidctl.Prelude.{ℕ, suc, ◌+◌, ◌-◌, arith, ◌≡◌, Bool, ltb, leb, nat_eq, if◌then◌else◌}

-- `negsuc n` is -(n + 1).
pub data ℤ : Type 0 where
  pos : ℕ → ℤ
  negsuc : ℕ → ℤ

abbrev pub pos_part : ℤ → ℕ
pos_part (pos n) = n
pos_part (negsuc n) = 0

abbrev pub neg_part : ℤ → ℕ
neg_part (pos n) = 0
neg_part (negsuc n) = suc n

-- `abs(a - b)`: one of the two truncated differences is 0.
unfoldable pub abs_diff : ℤ → ℤ → ℕ
abs_diff a b =
    (pos_part a + neg_part b - (pos_part b + neg_part a))
    + (pos_part b + neg_part a - (pos_part a + neg_part b))

pub abs_diff_self : (a : ℤ) → abs_diff a a ≡ 0
unfolding abs_diff
abs_diff_self a = omega arith

-- `a < b`
abbrev pub int_lt : ℤ → ℤ → Bool
int_lt a b = ltb (pos_part a + neg_part b) (pos_part b + neg_part a)

-- `a == b`
abbrev pub int_eq : ℤ → ℤ → Bool
int_eq a b = nat_eq (pos_part a + neg_part b) (pos_part b + neg_part a)

-- The difference of two natural numbers.
abbrev pub difference : ℕ → ℕ → ℤ
difference a b = if leb b a then pos (a - b) else negsuc (b - a - 1)

abbrev pub int_add : ℤ → ℤ → ℤ
int_add a b = difference (pos_part a + pos_part b) (neg_part a + neg_part b)

abbrev pub int_sub : ℤ → ℤ → ℤ
int_sub a b = difference (pos_part a + neg_part b) (neg_part a + pos_part b)

-- `a <= b`
abbrev pub int_le : ℤ → ℤ → Bool
int_le a b = leb (pos_part a + neg_part b) (pos_part b + neg_part a)

abbrev pub int_max : ℤ → ℤ → ℤ
int_max a b = if int_le a b then b else a

abbrev pub int_min : ℤ → ℤ → ℤ
int_min a b = if int_le a b then a else b
