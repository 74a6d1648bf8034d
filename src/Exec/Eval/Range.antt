-- ===== src/Exec/Eval/Range.antt =====
-- The integers that ferrite-exec/src/eval.rs computes, and the widths of their types.
pub mod Evaluation
pub mod Exact
use ferrite.Prelude.{
  ℕ, zero, suc, ◌≡◌, refl, Bool, true, false, Option, none, some, List, [], ◌∷◌, get_elem?, arith,
  ◌||◌, if◌then◌else◌, Bool-cases, inl, inr,
}
use Prim.Native.Nat.{Ordering}
use ferrite.Prelude.Int.{ℤ, pos, negsuc, rem_trunc, div_trunc, ◌+ℤ◌, ◌-ℤ◌, ◌*ℤ◌, in_i32, in_i64}
use ferrite.Common.Error.{FerriteError, Result, ok, err, ◌>>=◌}
use ferrite.Common.Value.{Value, null, int4, int8, float8, text, timestamp, DataType, Row, is_null}
use ferrite.Planner.Expr.{
  BinaryOp, ScalarFunc, is_arithmetic, PhysExpr, column, literal, binary, like, case, cast,
  function, in_subquery, OptExpr, absent, present, Exprs, nil, cons, Branches, end, branch,
}
use ferrite.Exec.Compare.{Machine, compare, as_float}
use ferrite.Exec.Arithmetic.{
  integer_op, checked, is_zero, narrow, widen, division_by_zero, arithmetic, number_values,
  operands, Operands, floats, narrow_ints, wide_ints, others, concat_values, float_values, float_op,
  is_concat,
}
use ferrite.Exec.Eval.{
  Scalars, binary_value, as_bool, and_then, or_then, matched_value, like_values, like_result,
  matched_text, or_out_of_bounds, taken, not_value, or_null, and_values, or_values, eval, eval_opt,
  eval_args, eval_branches,
}

abbrev pub InRange : Value → Type 0
InRange (int4 v) = in_i32 v ≡ true
InRange (int8 v) = in_i64 v ≡ true
InRange (timestamp v) = in_i64 v ≡ true
InRange _ = Unit

-- A result, if it is one, has the property.
abbrev pub Ensures {ℓ} : {A : Type ℓ} → (A → Type 0) → Result A → Type 0
Ensures P (ok a) = P a
Ensures P (err e) = Unit

pub Ensures-bind :
    {A B : Type 0} (P : A → Type 0) (Q : B → Type 0) (r : Result A) (f : A → Result B)
    → Ensures P r
    → ((a : A) → P a → Ensures Q (f a))
    → Ensures Q (r >>= f)
Ensures-bind P Q (ok a) f h k = k a h
Ensures-bind P Q (err e) f h k = tt

in_i64-rem : (a b : ℤ) → in_i64 a ≡ true → in_i64 (rem_trunc a b) ≡ true
unfolding rem_trunc
in_i64-rem (pos a) (pos b) h = grind arith
in_i64-rem (pos a) (negsuc b) h = grind arith
in_i64-rem (negsuc a) (pos b) h = grind arith
in_i64-rem (negsuc a) (negsuc b) h = grind arith

abbrev IsI64Result : Result ℤ → Type 0
IsI64Result r = Ensures (λ v. in_i64 v ≡ true) r

checked-in_i64 : (e : FerriteError) (v : ℤ) → IsI64Result (checked e v)
unfolding checked
checked-in_i64 e v = elim (Bool-cases (in_i64 v)) [ inl h ↦ rw h h | inr h ↦ rw h tt ]

-- Where the right operand of a division is zero, the division is an error.
division_in_i64 :
    (b : Bool) (e : FerriteError) (r : Result ℤ)
    → IsI64Result r
    → IsI64Result (if b then err e else r)
division_in_i64 true e r h = tt
division_in_i64 false e r h = h

rem-in_i64 :
    (a b : ℤ) (r : Result ℤ) → in_i64 a ≡ true → IsI64Result (r >>= λ q. ok (rem_trunc a b))
rem-in_i64 a b (ok q) h = in_i64-rem a b h
rem-in_i64 a b (err e) h = tt

integer_op-in_i64 : (op : BinaryOp) (a b : ℤ) → in_i64 a ≡ true → IsI64Result (integer_op op a b)
unfolding integer_op
integer_op-in_i64 BinaryOp.plus a b h = checked-in_i64 _ (a +ℤ b)
integer_op-in_i64 BinaryOp.minus a b h = checked-in_i64 _ (a -ℤ b)
integer_op-in_i64 BinaryOp.multiply a b h = checked-in_i64 _ (a *ℤ b)
integer_op-in_i64 BinaryOp.divide a b h =
    division_in_i64 (is_zero b) _ _ (checked-in_i64 _ (div_trunc a b))
integer_op-in_i64 BinaryOp.modulo a b h =
    division_in_i64 (is_zero b) _ _ (rem-in_i64 a b (checked division_by_zero (div_trunc a b)) h)
integer_op-in_i64 _ a b h = tt

narrow-InRange : (r : Result ℤ) → Ensures InRange (narrow r)
unfolding narrow
narrow-InRange (err e) = tt
narrow-InRange (ok v) = elim (Bool-cases (in_i32 v)) [ inl h ↦ rw h h | inr h ↦ rw h tt ]

widen-InRange : (r : Result ℤ) → IsI64Result r → Ensures InRange (widen r)
unfolding widen
widen-InRange (err e) h = tt
widen-InRange (ok v) h = h

pub in_i64-of_i32 : (v : ℤ) → in_i32 v ≡ true → in_i64 v ≡ true
in_i64-of_i32 (pos n) h = ground arith
in_i64-of_i32 (negsuc n) h = ground arith

-- What the operands of wide arithmetic are known to be.
wide_in_i64 : (l r : Value) (a b : ℤ) → InRange l → operands l r ≡ wide_ints a b → in_i64 a ≡ true
unfolding operands
wide_in_i64 (int4 x) r a b h e = ground (arith, in_i64-of_i32 x)
wide_in_i64 (int8 x) r a b h e = ground arith
wide_in_i64 _ r a b h e = ground arith

module _ (m : Machine) where
  float8-InRange : (r : Result ℕ) → Ensures InRange (r >>= λ v. ok (float8 v))
  float8-InRange (ok v) = tt
  float8-InRange (err e) = tt

  float_values-InRange :
      (op : BinaryOp) (a b : Option ℕ) (e : FerriteError)
      → Ensures InRange (float_values m op a b e)
  unfolding float_values
  float_values-InRange op (some a) (some b) e = float8-InRange (float_op m op a b)
  float_values-InRange op none b e = tt
  float_values-InRange op (some a) none e = tt

  number_values-InRange :
      (op : BinaryOp) (l r : Value) (o : Operands)
      → InRange l
      → operands l r ≡ o
      → Ensures InRange (number_values m op l r o)
  unfolding number_values
  number_values-InRange op l r floats h e = float_values-InRange op (as_float m l) (as_float m r) _
  number_values-InRange op l r (narrow_ints a b) h e = narrow-InRange (integer_op op a b)
  number_values-InRange op l r (wide_ints a b) h e =
      widen-InRange (integer_op op a b) (integer_op-in_i64 op a b (wide_in_i64 l r a b h e))
  number_values-InRange op l r others h e = tt

  concat_values-InRange : (l r : Value) → Ensures InRange (concat_values l r)
  unfolding concat_values
  concat_values-InRange (text a) (text b) = tt
  concat_values-InRange _ _ = tt

  either_InRange :
      (b : Bool) (x y : Result Value)
      → Ensures InRange x
      → Ensures InRange y
      → Ensures InRange (if b then x else y)
  either_InRange true x y h k = h
  either_InRange false x y h k = k

  arithmetic-InRange :
      (op : BinaryOp) (l r : Value) → InRange l → Ensures InRange (arithmetic m op l r)
  unfolding arithmetic is_concat
  arithmetic-InRange op l r h =
      let c = concat_values-InRange l r in
      let n = number_values-InRange op l r (operands l r) h refl in
      either_InRange (is_null l || is_null r) (ok null) _ tt (
        either_InRange (is_concat op) (concat_values l r) (number_values m op l r (operands l r)) c
          n)

  compared_InRange :
      (op : BinaryOp) (r : Result (Option Ordering))
      → Ensures InRange (r >>= λ o. ok (matched_value op o))
  unfolding matched_value
  compared_InRange op (ok none) = tt
  compared_InRange op (ok (some o)) = tt
  compared_InRange op (err e) = tt

  and_values-InRange : (a b : Option Bool) → InRange (and_values a b)
  unfolding and_values
  and_values-InRange a (some false) = tt
  and_values-InRange (some true) (some true) = tt
  and_values-InRange (some false) (some true) = tt
  and_values-InRange none (some true) = tt
  and_values-InRange a none = tt

  or_values-InRange : (a b : Option Bool) → InRange (or_values a b)
  unfolding or_values
  or_values-InRange a (some true) = tt
  or_values-InRange (some true) (some false) = tt
  or_values-InRange (some false) (some false) = tt
  or_values-InRange none (some false) = tt
  or_values-InRange a none = tt

  -- A result without a condition.
  any_result : {A : Type 0} (r : Result A) → Ensures (λ a. Unit) r
  any_result (ok a) = tt
  any_result (err e) = tt

  right_InRange :
      (f : Option Bool → Value) (r : Result Value)
      → ((b : Option Bool) → InRange (f b))
      → Ensures InRange (r >>= λ v. as_bool v >>= λ b. ok (f b))
  right_InRange f r h =
      Ensures-bind (λ a. Unit) InRange r _ (any_result r)
        (λ v k.
          Ensures-bind (λ a. Unit) InRange (as_bool v) _ (any_result (as_bool v)) (λ b j. h b))

  and_then-InRange : (a : Option Bool) (r : Result Value) → Ensures InRange (and_then a r)
  unfolding and_then
  and_then-InRange (some false) r = tt
  and_then-InRange (some true) r =
      right_InRange (and_values (some true)) r (and_values-InRange (some true))
  and_then-InRange none r = right_InRange (and_values none) r (and_values-InRange none)

  or_then-InRange : (a : Option Bool) (r : Result Value) → Ensures InRange (or_then a r)
  unfolding or_then
  or_then-InRange (some true) r = tt
  or_then-InRange (some false) r =
      right_InRange (or_values (some false)) r (or_values-InRange (some false))
  or_then-InRange none r = right_InRange (or_values none) r (or_values-InRange none)

  connective_InRange :
      (l : Result Value) (f : Option Bool → Result Value)
      → ((b : Option Bool) → Ensures InRange (f b))
      → Ensures InRange (l >>= λ v. as_bool v >>= f)
  connective_InRange l f h =
      Ensures-bind (λ a. Unit) InRange l _ (any_result l)
        (λ v k.
          Ensures-bind (λ a. Unit) InRange (as_bool v) f (any_result (as_bool v)) (λ b j. h b))

  binary_value-InRange :
      (sc : Scalars) (op : BinaryOp) (l r : Result Value)
      → Ensures InRange l
      → Ensures InRange (binary_value m sc op l r)
  unfolding binary_value
  binary_value-InRange sc BinaryOp.and l r h =
      connective_InRange l (λ b. and_then b r) (λ b. and_then-InRange b r)
  binary_value-InRange sc BinaryOp.or l r h =
      connective_InRange l (λ b. or_then b r) (λ b. or_then-InRange b r)
  binary_value-InRange sc op l r h = Ensures-bind InRange InRange l _ h (λ a k.
      Ensures-bind (λ v. Unit) InRange r _ (any_result r)
        (λ b j.
          either_InRange (is_arithmetic op) _ _ (arithmetic-InRange op a b k)
            (compared_InRange op (compare m a b))))
