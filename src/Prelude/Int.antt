-- ===== src/Prelude/Int.antt =====
-- Signed integers over the native numbers, and the two's complement casts of 32 and 64 bits.
use Prim.Native.Nat.{ℕ, zero, suc, ◌+◌, ◌-◌, ◌*◌, ◌/◌, ◌%◌, ◌^◌, ◌<◌, compare, Ordering}
use mathlib.Core.Path.{◌≡◌}
use native.Mathlib.Omega.{arith}
use mathlib.Core.Bool.{Bool, false}
use ferrite.Prelude.Tests.{leb, ltb, ◌==◌, if◌then◌else◌}

-- `negsuc n` is -(n + 1).
pub data ℤ : Type 0 where
  pos : ℕ → ℤ
  negsuc : ℕ → ℤ

-- The values of i32 and of i64.
abbrev pub IsI32 : ℤ → Type 0
IsI32 (pos n) = n < 2 ^ 31
IsI32 (negsuc n) = n < 2 ^ 31

abbrev pub IsI64 : ℤ → Type 0
IsI64 (pos n) = n < 2 ^ 63
IsI64 (negsuc n) = n < 2 ^ 63

-- `v as u32` of an i32, and `w as i32` of a u32.
unfoldable pub i32_to_u32 : ℤ → ℕ
i32_to_u32 (pos n) = n
i32_to_u32 (negsuc n) = 2 ^ 32 - 1 - n

pub u32_to_i32 : ℕ → ℤ
u32_to_i32 w = if ltb w (2 ^ 31) then pos w else negsuc (2 ^ 32 - 1 - w)

-- `v as u64` of an i64, and `w as i64` of a u64.
pub i64_to_u64 : ℤ → ℕ
i64_to_u64 (pos n) = n
i64_to_u64 (negsuc n) = 2 ^ 64 - 1 - n

pub u64_to_i64 : ℕ → ℤ
u64_to_i64 w = if ltb w (2 ^ 63) then pos w else negsuc (2 ^ 64 - 1 - w)

pub u32_to_i32-i32_to_u32 : (z : ℤ) → IsI32 z → u32_to_i32 (i32_to_u32 z) ≡ z
unfolding i32_to_u32 u32_to_i32
u32_to_i32-i32_to_u32 (pos n) h = ground arith
u32_to_i32-i32_to_u32 (negsuc n) h = ground arith

pub u64_to_i64-i64_to_u64 : (z : ℤ) → IsI64 z → u64_to_i64 (i64_to_u64 z) ≡ z
unfolding i64_to_u64 u64_to_i64
u64_to_i64-i64_to_u64 (pos n) h = ground arith
u64_to_i64-i64_to_u64 (negsuc n) h = ground arith

pub i32_to_u32-lt : (z : ℤ) → IsI32 z → i32_to_u32 z < 2 ^ 32
unfolding i32_to_u32
i32_to_u32-lt (pos n) h = omega arith
i32_to_u32-lt (negsuc n) h = omega arith

pub i64_to_u64-lt : (z : ℤ) → IsI64 z → i64_to_u64 z < 2 ^ 64
unfolding i64_to_u64
i64_to_u64-lt (pos n) h = omega arith
i64_to_u64-lt (negsuc n) h = omega arith

abbrev pub same_int : ℤ → ℤ → Bool
same_int (pos m) (pos n) = m == n
same_int (negsuc m) (negsuc n) = m == n
same_int _ _ = false

-- -n.
abbrev pub neg_of : ℕ → ℤ
neg_of zero = pos 0
neg_of (suc n) = negsuc n

abbrev pub pos_part : ℤ → ℕ
pos_part (pos n) = n
pos_part (negsuc n) = 0

abbrev pub neg_part : ℤ → ℕ
neg_part (pos n) = 0
neg_part (negsuc n) = suc n

-- a - b, as an integer.
abbrev pub sub_ℕ : ℕ → ℕ → ℤ
sub_ℕ a b = if leb b a then pos (a - b) else negsuc (b - a - 1)

infixl 65 ◌+ℤ◌ ◌-ℤ◌
infixl 70 ◌*ℤ◌
unfoldable pub ◌+ℤ◌ : ℤ → ℤ → ℤ
a +ℤ b = sub_ℕ (pos_part a + pos_part b) (neg_part a + neg_part b)

abbrev pub ◌-ℤ◌ : ℤ → ℤ → ℤ
a -ℤ b = sub_ℕ (pos_part a + neg_part b) (neg_part a + pos_part b)

abbrev pub ◌*ℤ◌ : ℤ → ℤ → ℤ
a *ℤ b =
    sub_ℕ (pos_part a * pos_part b + neg_part a * neg_part b)
      (pos_part a * neg_part b + neg_part a * pos_part b)

-- Division that rounds towards zero, and its remainder.
abbrev pub div_trunc : ℤ → ℤ → ℤ
div_trunc (pos a) (pos b) = pos (a / b)
div_trunc (pos a) (negsuc b) = neg_of (a / suc b)
div_trunc (negsuc a) (pos b) = neg_of (suc a / b)
div_trunc (negsuc a) (negsuc b) = pos (suc a / suc b)

unfoldable pub rem_trunc : ℤ → ℤ → ℤ
rem_trunc (pos a) (pos b) = pos (a % b)
rem_trunc (pos a) (negsuc b) = pos (a % suc b)
rem_trunc (negsuc a) (pos b) = neg_of (suc a % b)
rem_trunc (negsuc a) (negsuc b) = neg_of (suc a % suc b)

abbrev pub in_i32 : ℤ → Bool
in_i32 (pos n) = ltb n (2 ^ 31)
in_i32 (negsuc n) = ltb n (2 ^ 31)

abbrev pub in_i64 : ℤ → Bool
in_i64 (pos n) = ltb n (2 ^ 63)
in_i64 (negsuc n) = ltb n (2 ^ 63)

abbrev pub int_compare : ℤ → ℤ → Ordering
int_compare (pos a) (pos b) = compare a b
int_compare (pos a) (negsuc b) = Ordering.gt
int_compare (negsuc a) (pos b) = Ordering.lt
int_compare (negsuc a) (negsuc b) = compare b a
