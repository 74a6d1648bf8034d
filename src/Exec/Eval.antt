-- ===== src/Exec/Eval.antt =====
-- `eval` of ferrite-exec/src/eval.rs: expressions over a row, with the three-valued logic.
pub mod Logic
pub mod Range
pub mod Typing
pub mod Related
pub mod Locality
pub mod Pushdown
mod Examples
use ferrite.Prelude.{
  ℕ, Bool, true, false, not, ◌||◌, Option, none, some, List, [], ◌∷◌, ◌++◌, get_elem?, ◌==◌,
  if◌then◌else◌,
}
use Prim.Native.Nat.{Ordering}
use ferrite.Prelude.Int.{ℤ, pos, ◌+ℤ◌, ◌-ℤ◌, ◌*ℤ◌, div_trunc, rem_trunc, in_i32, in_i64}
use ferrite.Common.Error.{FerriteError, Message, type_mismatch, exec, Result, ok, err, ◌>>=◌}
use ferrite.Common.Value.{
  Value, null, boolean, int4, int8, float8, text, timestamp, uuid, json, DataType, Row, is_null,
  same_float,
}
use ferrite.Planner.Expr.{
  BinaryOp, is_arithmetic, ScalarFunc, PhysExpr, column, literal, binary, like, case, cast,
  function, in_subquery, OptExpr, absent, present, Exprs, nil, cons, Branches, end, branch,
}
use ferrite.Exec.Like.{like_matches}
use ferrite.Exec.Arithmetic.{mismatch, arithmetic}
use ferrite.Exec.Compare.{Machine, type_of, as_float, compare}

-- What `eval` calls in scalar.rs, and of the standard library on texts. `lowercase` folds the case of
-- a text, and `chars` gives its characters.
pub record Scalars : Type 0 where
  pub cast : Value → DataType → Result Value
  pub call : ScalarFunc → List Value → Result Value
  pub lowercase : List ℕ → List ℕ
  pub chars : List ℕ → List ℕ

pub as_bool : Value → Result (Option Bool)
as_bool null = ok none
as_bool (boolean b) = ok (some b)
as_bool other = err (type_mismatch DataType.boolean (type_of other))

unfoldable pub matches : BinaryOp → Ordering → Bool
matches BinaryOp.equal Ordering.eq = true
matches BinaryOp.not_eq Ordering.lt = true
matches BinaryOp.not_eq Ordering.gt = true
matches BinaryOp.lt Ordering.lt = true
matches BinaryOp.lt_eq Ordering.lt = true
matches BinaryOp.lt_eq Ordering.eq = true
matches BinaryOp.gt Ordering.gt = true
matches BinaryOp.gt_eq Ordering.gt = true
matches BinaryOp.gt_eq Ordering.eq = true
matches _ _ = false

-- `NOT`, and the two connectives on operands that do not settle them alone.
pub not_value : Option Bool → Value
not_value none = null
not_value (some b) = boolean (not b)

pub and_values : Option Bool → Option Bool → Value
and_values left (some false) = boolean false
and_values (some true) (some true) = boolean true
and_values _ _ = null

pub or_values : Option Bool → Option Bool → Value
or_values left (some true) = boolean true
or_values (some false) (some false) = boolean false
or_values _ _ = null

-- The right operand is read unless the left one settles the result.
pub and_then : Option Bool → Result Value → Result Value
unfolding and_values as_bool
and_then (some false) right = ok (boolean false)
and_then left right = right >>= λ v. as_bool v >>= λ b. ok (and_values left b)

pub or_then : Option Bool → Result Value → Result Value
unfolding or_values as_bool
or_then (some true) right = ok (boolean true)
or_then left right = right >>= λ v. as_bool v >>= λ b. ok (or_values left b)

matched_value : BinaryOp → Option Ordering → Value
matched_value op none = null
matched_value op (some o) = boolean (matches op o)

-- `!=` on the outcome and `negated`.
like_result : Bool → Option Bool → Value
like_result negated none = null
like_result negated (some matched) = boolean (if negated then not matched else matched)

pub or_out_of_bounds : ℕ → Option Value → Result Value
or_out_of_bounds position none = err (exec (Message.with_number "column out of range" position))
or_out_of_bounds position (some v) = ok v

is_equal : Option Ordering → Bool
is_equal none = false
is_equal (some o) = elim o [ Ordering.eq ↦ true | _ ↦ false ]

or_null : Option Value → Value
or_null none = null
or_null (some v) = v

is_true : Value → Bool
is_true v = elim v [ boolean b ↦ b | _ ↦ false ]

module _ (m : Machine) where
  module _ (sc : Scalars) where
    matched_text : Bool → List ℕ → List ℕ → Option Bool
    matched_text case_insensitive subject pattern =
        like_matches (sc.chars (if case_insensitive then sc.lowercase subject else subject))
          (sc.chars (if case_insensitive then sc.lowercase pattern else pattern))

    pub like_values : Bool → Bool → Value → Value → Result Value
    unfolding matched_text like_result
    like_values negated case_insensitive null pattern = ok null
    like_values negated case_insensitive subject null = ok null
    like_values negated case_insensitive (text s) (text p) =
        ok (like_result negated (matched_text case_insensitive s p))
    like_values negated case_insensitive subject pattern =
        err (mismatch DataType.text subject pattern)

    -- A branch is taken by its comparison with the operand, or by its own truth.
    taken : Option Value → Value → Result Bool
    unfolding is_equal is_true
    taken none when = ok (is_true when)
    taken (some operand) when = compare m operand when >>= λ o. ok (is_equal o)

    pub binary_value : BinaryOp → Result Value → Result Value → Result Value
    unfolding and_then or_then as_bool matched_value arithmetic
    binary_value BinaryOp.and left right = left >>= λ v. as_bool v >>= λ b. and_then b right
    binary_value BinaryOp.or left right = left >>= λ v. as_bool v >>= λ b. or_then b right
    binary_value op left right = left >>= λ l. right >>= λ r.
        if is_arithmetic op
        then arithmetic m op l r
        else compare m l r >>= λ o. ok (matched_value op o)

    mutual
      unfolding binary_value like_values or_out_of_bounds taken not_value as_bool or_null

      pub eval : PhysExpr → Row → Result Value
      eval (column position) row = or_out_of_bounds position (get_elem? row.values position)
      eval (literal value) row = ok value
      eval (PhysExpr.is_null inner) row = eval inner row >>= λ v. ok (boolean (is_null v))
      eval (PhysExpr.not inner) row = eval inner row >>= λ v. as_bool v >>= λ b. ok (not_value b)
      eval (like subject pattern negated case_insensitive) row = eval subject row >>= λ s.
          eval pattern row >>= λ p. like_values negated case_insensitive s p
      eval (binary left op right) row = binary_value op (eval left row) (eval right row)
      eval (in_subquery inner negated) row =
          err (exec (Message.text "a subquery reached evaluation without having been run"))
      eval (cast inner target) row = eval inner row >>= λ v. sc.cast v target
      eval (function func args) row = eval_args args row >>= λ vs. sc.call func vs
      eval (case operand branches else_result) row = eval_opt operand row >>= λ o.
          eval_branches o branches (eval_opt else_result row >>= λ e. ok (or_null e)) row

      pub eval_opt : OptExpr → Row → Result (Option Value)
      eval_opt absent row = ok none
      eval_opt (present e) row = eval e row >>= λ v. ok (some v)

      pub eval_args : Exprs → Row → Result (List Value)
      eval_args nil row = ok []
      eval_args (cons e rest) row = eval e row >>= λ v. eval_args rest row >>= λ vs. ok (v ∷ vs)

      pub eval_branches : Option Value → Branches → Result Value → Row → Result Value
      eval_branches operand end else_result row = else_result
      eval_branches operand (branch when then_result rest) else_result row = eval when row >>= λ w.
          taken operand w >>= λ t. elim t [
            | true ↦ eval then_result row
            | false ↦ eval_branches operand rest else_result row
          ]

    -- Only `true` keeps a row.
    pub eval_predicate : PhysExpr → Row → Result Bool
    unfolding is_true eval
    eval_predicate e row = eval e row >>= λ v. ok (is_true v)
