-- ===== src/Exec/Eval/Range/Exact.antt =====
-- The integer arithmetic of ferrite-exec/src/eval.rs against that on unbounded integers.
use ferrite.Prelude.{
  ◌≡◌, refl, subst, Bool, true, false, List, arith, if◌then◌else◌, Bool-cases, inl, inr,
}
use ferrite.Prelude.Int.{
  ℤ, pos, negsuc, ◌+ℤ◌, ◌-ℤ◌, ◌*ℤ◌, div_trunc, rem_trunc, in_i32, in_i64, same_int,
}
use ferrite.Common.Error.{FerriteError, Result, ok, err}
use ferrite.Common.Value.{Value, int4, int8, DataType, Row}
use ferrite.Planner.Expr.{BinaryOp, ScalarFunc, is_arithmetic, PhysExpr, binary}
use ferrite.Exec.Compare.{Machine}
use ferrite.Exec.Arithmetic.{
  out_of_range, division_by_zero, not_arithmetic, checked, is_zero, integer_op, narrow, widen,
  operands, is_concat, number_values, arithmetic,
}
use ferrite.Exec.Eval.{Scalars, binary_value, eval}
use ferrite.Exec.Eval.Range.{InRange, Ensures, in_i64-of_i32}
use ferrite.Exec.Eval.Range.Evaluation.{RowInRange, Literals, eval-InRange}

-- The two integer types, by their bytes.
pub data Width : Type 0 where
  four eight : Width

abbrev pub number : Width → ℤ → Value
number four v = int4 v
number eight v = int8 v

abbrev pub fits : Width → ℤ → Bool
fits four v = in_i32 v
fits eight v = in_i64 v

-- The type of a result is the wider one of its operands'.
abbrev pub wider : Width → Width → Width
wider four four = four
wider _ _ = eight

abbrev pub if_fits : FerriteError → Width → ℤ → Result Value
if_fits e w v = if fits w v then ok (number w v) else err e

abbrev pub quotient : Width → ℤ → Result Value
quotient four q = if_fits out_of_range four q
quotient eight q = if_fits division_by_zero eight q

-- A remainder fits always, but that by -1 of the least number of eight bytes is refused.
abbrev pub remainder : Width → ℤ → ℤ → Result Value
remainder four a b = ok (int4 (rem_trunc a b))
remainder eight a b =
    if in_i64 (div_trunc a b) then ok (int8 (rem_trunc a b)) else err division_by_zero

-- The number that the operation has, if the type of the result holds it, and otherwise an error.
abbrev pub exact_result : BinaryOp → Width → ℤ → ℤ → Result Value
exact_result BinaryOp.plus w a b = if_fits out_of_range w (a +ℤ b)
exact_result BinaryOp.minus w a b = if_fits out_of_range w (a -ℤ b)
exact_result BinaryOp.multiply w a b = if_fits out_of_range w (a *ℤ b)
exact_result BinaryOp.divide w a b =
    if same_int b (pos 0) then err division_by_zero else quotient w (div_trunc a b)
exact_result BinaryOp.modulo w a b =
    if same_int b (pos 0) then err division_by_zero else remainder w a b
exact_result _ w a b = err not_arithmetic

is_zero-same_int : (b : ℤ) → is_zero b ≡ same_int b (pos 0)
unfolding is_zero
is_zero-same_int (pos n) = refl
is_zero-same_int (negsuc n) = refl

div_in_i64 : (a b : ℤ) → in_i32 a ≡ true → in_i64 (div_trunc a b) ≡ true
div_in_i64 (pos a) (pos b) h = grind arith
div_in_i64 (pos a) (negsuc b) h = grind arith
div_in_i64 (negsuc a) (pos b) h = grind arith
div_in_i64 (negsuc a) (negsuc b) h = grind arith

in_i32-rem : (a b : ℤ) → in_i32 a ≡ true → in_i32 (rem_trunc a b) ≡ true
unfolding rem_trunc
in_i32-rem (pos a) (pos b) h = grind arith
in_i32-rem (pos a) (negsuc b) h = grind arith
in_i32-rem (negsuc a) (pos b) h = grind arith
in_i32-rem (negsuc a) (negsuc b) h = grind arith

-- What fits four bytes fits eight, so the first of the two tests does not matter.
narrow-checked : (v : ℤ) → narrow (checked out_of_range v) ≡ if_fits out_of_range four v
unfolding narrow checked
narrow-checked v = elim (Bool-cases (in_i32 v)) [
  | inl h ↦ rw (in_i64-of_i32 v h) refl
  | inr h ↦ elim (Bool-cases (in_i64 v)) [ inl k ↦ rw k refl | inr k ↦ rw (k, h) refl ]
]

widen-checked : (e : FerriteError) (v : ℤ) → widen (checked e v) ≡ if_fits e eight v
unfolding widen checked
widen-checked e v = elim (Bool-cases (in_i64 v)) [ inl k ↦ rw k refl | inr k ↦ rw k refl ]

narrow-exact :
    (op : BinaryOp) (a b : ℤ)
    → in_i32 a ≡ true
    → narrow (integer_op op a b) ≡ exact_result op four a b
unfolding integer_op narrow checked
narrow-exact BinaryOp.plus a b h = narrow-checked (a +ℤ b)
narrow-exact BinaryOp.minus a b h = narrow-checked (a -ℤ b)
narrow-exact BinaryOp.multiply a b h = narrow-checked (a *ℤ b)
narrow-exact BinaryOp.divide a b h = elim (Bool-cases (same_int b (pos 0))) [
  | inl z ↦ rw (is_zero-same_int b, z) refl
  | inr z ↦ rw (is_zero-same_int b, z, div_in_i64 a b h) refl
]
narrow-exact BinaryOp.modulo a b h = elim (Bool-cases (same_int b (pos 0))) [
  | inl z ↦ rw (is_zero-same_int b, z) refl
  | inr z ↦ rw (is_zero-same_int b, z, div_in_i64 a b h, in_i32-rem a b h) refl
]
narrow-exact _ a b h = refl

widen-exact : (op : BinaryOp) (a b : ℤ) → widen (integer_op op a b) ≡ exact_result op eight a b
unfolding integer_op widen checked
widen-exact BinaryOp.plus a b = widen-checked out_of_range (a +ℤ b)
widen-exact BinaryOp.minus a b = widen-checked out_of_range (a -ℤ b)
widen-exact BinaryOp.multiply a b = widen-checked out_of_range (a *ℤ b)
widen-exact BinaryOp.divide a b = elim (Bool-cases (same_int b (pos 0))) [
  | inl z ↦ rw (is_zero-same_int b, z) refl
  | inr z ↦ rw (is_zero-same_int b, z) (widen-checked division_by_zero (div_trunc a b))
]
widen-exact BinaryOp.modulo a b = elim (Bool-cases (same_int b (pos 0))) [
  | inl z ↦ rw (is_zero-same_int b, z) refl
  | inr z ↦ elim (Bool-cases (in_i64 (div_trunc a b))) [
    | inl k ↦ rw (is_zero-same_int b, z, k) refl
    | inr k ↦ rw (is_zero-same_int b, z, k) refl
  ]
]
widen-exact _ a b = refl

-- The operations on two numbers.
abbrev pub computes : BinaryOp → Bool
computes BinaryOp.plus = true
computes BinaryOp.minus = true
computes BinaryOp.multiply = true
computes BinaryOp.divide = true
computes BinaryOp.modulo = true
computes _ = false

module _ (m : Machine) where
  arithmetic-exact :
      (op : BinaryOp) (w u : Width) (x y : ℤ)
      → fits w x ≡ true
      → is_concat op ≡ false
      → arithmetic m op (number w x) (number u y) ≡ exact_result op (wider w u) x y
  unfolding arithmetic number_values operands
  arithmetic-exact op four four x y h k = rw k (narrow-exact op x y h)
  arithmetic-exact op four eight x y h k = rw k (widen-exact op x y)
  arithmetic-exact op eight four x y h k = rw k (widen-exact op x y)
  arithmetic-exact op eight eight x y h k = rw k (widen-exact op x y)

  binary_value-exact :
      (sc : Scalars) (op : BinaryOp) (w u : Width) (x y : ℤ)
      → fits w x ≡ true
      → computes op ≡ true
      → binary_value m sc op (ok (number w x)) (ok (number u y)) ≡ exact_result op (wider w u) x y
  unfolding binary_value is_arithmetic is_concat
  binary_value-exact sc BinaryOp.plus w u x y h k = arithmetic-exact BinaryOp.plus w u x y h refl
  binary_value-exact sc BinaryOp.minus w u x y h k = arithmetic-exact BinaryOp.minus w u x y h refl
  binary_value-exact sc BinaryOp.multiply w u x y h k =
      arithmetic-exact BinaryOp.multiply w u x y h refl
  binary_value-exact sc BinaryOp.divide w u x y h k =
      arithmetic-exact BinaryOp.divide w u x y h refl
  binary_value-exact sc BinaryOp.modulo w u x y h k =
      arithmetic-exact BinaryOp.modulo w u x y h refl
  binary_value-exact sc _ w u x y h k = cc

  number-fits : (w : Width) (x : ℤ) → InRange (number w x) → fits w x ≡ true
  number-fits four x h = h
  number-fits eight x h = h

  module _ (sc : Scalars)
      (cast_in_range : (v : Value) (t : DataType) → InRange v → Ensures InRange (sc.cast v t))
      (call_in_range : (f : ScalarFunc) (vs : List Value)
        → RowInRange vs
        → Ensures InRange (sc.call f vs))
      (row : Row) (row_in_range : RowInRange row.values) where
    operand-fits :
        (e : PhysExpr) (w : Width) (x : ℤ)
        → Literals e
        → eval m sc e row ≡ ok (number w x)
        → fits w x ≡ true
    operand-fits e w x h k = number-fits w x (
        subst (Ensures InRange) k
          (eval-InRange m sc cast_in_range call_in_range row row_in_range e h))

    -- If the row and the literals of the left operand hold integers within the widths of their
    -- types, and cast and the scalar functions keep to them, then a sum, difference, product,
    -- quotient or remainder of two operands that evaluate to integers evaluates to the result on
    -- unbounded integers, in the wider of the two types, where that type holds it, and to an error
    -- otherwise: that of a division by zero for a zero divisor, and for the least int8 by -1 in
    -- eight bytes, its remainder included, and that of an integer out of range in all other cases.
    pub eval-exact_result :
        (op : BinaryOp) (a b : PhysExpr) (w u : Width) (x y : ℤ)
        → computes op ≡ true
        → Literals a
        → eval m sc a row ≡ ok (number w x)
        → eval m sc b row ≡ ok (number u y)
        → eval m sc (binary a op b) row ≡ exact_result op (wider w u) x y
    unfolding eval
    eval-exact_result op a b w u x y c h j k =
        rw (j, k) (binary_value-exact sc op w u x y (operand-fits a w x h j) c)
