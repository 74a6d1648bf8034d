-- ===== src/Exec/Arithmetic.antt =====
-- `arithmetic`, `integer_op` and `float_op` of ferrite-exec/src/eval.rs.
use ferrite.Prelude.{ℕ, Bool, true, false, ◌||◌, Option, some, ◌++◌, ◌==◌, if◌then◌else◌}
use ferrite.Prelude.Int.{ℤ, pos, ◌+ℤ◌, ◌-ℤ◌, ◌*ℤ◌, div_trunc, rem_trunc, in_i32, in_i64}
use ferrite.Common.Error.{FerriteError, Message, type_mismatch, exec, Result, ok, err, ◌>>=◌}
use ferrite.Common.Value.{Value, null, int4, int8, float8, text, DataType, is_null, same_float}
use ferrite.Planner.Expr.{BinaryOp}
use ferrite.Exec.Compare.{Machine, type_of, as_float}

pub out_of_range : FerriteError
out_of_range = exec (Message.text "integer out of range")

pub division_by_zero : FerriteError
division_by_zero = exec (Message.text "division by zero")

pub not_arithmetic : FerriteError
not_arithmetic = exec (Message.text "not arithmetic")

unfoldable pub checked : FerriteError → ℤ → Result ℤ
checked e v = if in_i64 v then ok v else err e

unfoldable pub is_zero : ℤ → Bool
is_zero v = elim v [ pos n ↦ n == 0 | ℤ.negsuc n ↦ false ]

-- `checked_div` and `checked_rem` fail on zero, and where the quotient is not an i64.
unfoldable pub integer_op : BinaryOp → ℤ → ℤ → Result ℤ
unfolding checked is_zero
integer_op BinaryOp.plus a b = checked out_of_range (a +ℤ b)
integer_op BinaryOp.minus a b = checked out_of_range (a -ℤ b)
integer_op BinaryOp.multiply a b = checked out_of_range (a *ℤ b)
integer_op BinaryOp.divide a b =
    if is_zero b then err division_by_zero else checked division_by_zero (div_trunc a b)
integer_op BinaryOp.modulo a b =
    if is_zero b
    then err division_by_zero
    else checked division_by_zero (div_trunc a b) >>= λ q. ok (rem_trunc a b)
integer_op other a b = err not_arithmetic

unfoldable pub narrow : Result ℤ → Result Value
narrow (err e) = err e
narrow (ok v) = if in_i32 v then ok (int4 v) else err out_of_range

unfoldable pub widen : Result ℤ → Result Value
widen r = r >>= λ v. ok (int8 v)

unfoldable pub same_type : DataType → DataType → Bool
same_type DataType.boolean DataType.boolean = true
same_type DataType.int4 DataType.int4 = true
same_type DataType.int8 DataType.int8 = true
same_type DataType.float8 DataType.float8 = true
same_type DataType.text DataType.text = true
same_type DataType.timestamp DataType.timestamp = true
same_type DataType.uuid DataType.uuid = true
same_type DataType.json DataType.json = true
same_type _ _ = false

pub mismatch : DataType → Value → Value → FerriteError
mismatch expected left right =
    type_mismatch expected
      (if same_type (type_of left) expected then type_of right else type_of left)

unfoldable pub concat_values : Value → Value → Result Value
unfolding mismatch same_type
concat_values (text a) (text b) = ok (text (a ++ b))
concat_values left right = err (mismatch DataType.text left right)

-- The kind of operands, by which the arms of `arithmetic` are chosen.
pub data Operands : Type 0 where
  floats : Operands
  narrow_ints : ℤ → ℤ → Operands
  wide_ints : ℤ → ℤ → Operands
  others : Operands

unfoldable pub operands : Value → Value → Operands
operands (float8 a) right = floats
operands left (float8 b) = floats
operands (int4 a) (int4 b) = narrow_ints a b
operands (int4 a) (int8 b) = wide_ints a b
operands (int8 a) (int4 b) = wide_ints a b
operands (int8 a) (int8 b) = wide_ints a b
operands _ _ = others

unfoldable pub is_concat : BinaryOp → Bool
is_concat op = elim op [ BinaryOp.concat ↦ true | _ ↦ false ]

module _ (m : Machine) where
  pub float_op : BinaryOp → ℕ → ℕ → Result ℕ
  float_op BinaryOp.plus a b = ok (m.add a b)
  float_op BinaryOp.minus a b = ok (m.sub a b)
  float_op BinaryOp.multiply a b = ok (m.mul a b)
  float_op BinaryOp.divide a b = if same_float b 0 then err division_by_zero else ok (m.div a b)
  float_op BinaryOp.modulo a b = if same_float b 0 then err division_by_zero else ok (m.rem a b)
  float_op other a b = err not_arithmetic

  unfoldable pub float_values : BinaryOp → Option ℕ → Option ℕ → FerriteError → Result Value
  unfolding float_op
  float_values op (some a) (some b) e = float_op op a b >>= λ v. ok (float8 v)
  float_values op _ _ e = err e

  unfoldable pub number_values : BinaryOp → Value → Value → Operands → Result Value
  unfolding float_values integer_op narrow widen
  number_values op left right floats =
      float_values op (as_float m left) (as_float m right) (mismatch DataType.float8 left right)
  number_values op left right (narrow_ints a b) = narrow (integer_op op a b)
  number_values op left right (wide_ints a b) = widen (integer_op op a b)
  number_values op left right others = err (mismatch DataType.float8 left right)

  unfoldable pub arithmetic : BinaryOp → Value → Value → Result Value
  unfolding concat_values number_values operands
  arithmetic op left right =
      if is_null left || is_null right
      then ok null
      else if is_concat op
      then concat_values left right
      else number_values op left right (operands left right)
