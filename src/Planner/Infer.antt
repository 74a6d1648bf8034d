-- ===== src/Planner/Infer.antt =====
-- `infer` and `numeric_result` of ferrite-planner/src/physical.rs: the type of an expression and
-- whether it may be null, with `result_type` and `is_null_preserving` of scalar.rs.
use ferrite.Prelude.{
  ℕ, Bool, true, false, not, ◌&&◌, ◌||◌, Option, none, some, List, [], ◌∷◌, leb, if◌then◌else◌,
}
use ferrite.Common.Error.{Message, plan, Result, ok, err, ◌>>=◌}
use ferrite.Common.Value.{DataType, data_type, is_null as null_value}
use ferrite.Planner.Expr.{BinaryOp, is_arithmetic, ScalarFunc}
use ferrite.Planner.Named.{
  Expr, column, slot, literal, binary, not as negation, is_null, like, case, cast, function,
  in_subquery, ExprOption, absent, present, ExprList, nil, cons, Cases, end, when_then,
}
use ferrite.Planner.Scope.{Scope, resolve, column_at}

-- A type, and whether the value may be null.
abbrev pub Inferred : Type 0
Inferred = DataType × Bool

abbrev pub result_type : ScalarFunc → DataType → DataType
result_type ScalarFunc.coalesce first = first
result_type ScalarFunc.nocase first = first
result_type other first = DataType.text

abbrev pub is_null_preserving : ScalarFunc → Bool
is_null_preserving ScalarFunc.coalesce = false
is_null_preserving other = true

abbrev pub rank : DataType → Option ℕ
rank DataType.int4 = some 0
rank DataType.int8 = some 1
rank DataType.float8 = some 2
rank other = none

abbrev pub wider : Option ℕ → Option ℕ → DataType → DataType → Result DataType
wider (some a) (some b) left right = if leb b a then ok left else ok right
wider _ _ left right = err (plan (Message.text "not defined for these types"))

abbrev pub numeric_result : DataType → DataType → Result DataType
numeric_result left right = wider (rank left) (rank right) left right

abbrev pub first_type : List Inferred → DataType
first_type [] = DataType.text
first_type ((t, n) ∷ rest) = t

abbrev pub any_null : List Inferred → Bool
any_null [] = false
any_null ((t, n) ∷ rest) = let later = any_null rest in n || later

abbrev pub all_null : List Inferred → Bool
all_null [] = true
all_null ((t, n) ∷ rest) = let later = all_null rest in n && later

abbrev pub or_text : Option DataType → DataType
or_text none = DataType.text
or_text (some t) = t

-- A CASE without an ELSE, or with one that may be null, may be null.
abbrev pub exhaustive : Option Inferred → Bool
exhaustive none = false
exhaustive (some (t, n)) = not n

abbrev pub arithmetic_type : BinaryOp → Inferred → Inferred → Result Inferred
arithmetic_type BinaryOp.concat (l, m) (r, n) = ok (DataType.text, m || n)
arithmetic_type op (l, m) (r, n) = numeric_result l r >>= λ t. ok (t, m || n)

unfoldable mutual
  pub infer : Expr → Scope → Result Inferred
  infer (column reference) scope =
      resolve scope reference >>= λ i. column_at scope i >>= λ c. ok (c.data_type, c.nullable)
  infer (slot position) scope = column_at scope position >>= λ c. ok (c.data_type, c.nullable)
  infer (literal value) scope = ok (or_text (data_type value), null_value value)
  infer (negation inner) scope = ok (DataType.boolean, true)
  infer (is_null inner) scope = ok (DataType.boolean, true)
  infer (like subject pattern negated case_insensitive) scope = ok (DataType.boolean, true)
  infer (in_subquery inner subquery negated) scope = ok (DataType.boolean, true)
  infer (cast inner target) scope = ok (target, true)
  infer (function func args) scope = infer_list args scope >>= λ inferred. ok (
    result_type func (first_type inferred),
    if is_null_preserving func then any_null inferred else all_null inferred,
  )
  infer (case operand branches else_result) scope = infer_cases branches scope >>= λ inferred.
      infer_option else_result scope >>= λ e.
      ok (first_type inferred, not (exhaustive e) || any_null inferred)
  infer (binary left op right) scope =
      if is_arithmetic op
      then (infer left scope >>= λ l. infer right scope >>= λ r. arithmetic_type op l r)
      else ok (DataType.boolean, true)

  pub infer_list : ExprList → Scope → Result (List Inferred)
  infer_list nil scope = ok []
  infer_list (cons e rest) scope =
      infer e scope >>= λ t. infer_list rest scope >>= λ ts. ok (t ∷ ts)

  pub infer_option : ExprOption → Scope → Result (Option Inferred)
  infer_option absent scope = ok none
  infer_option (present e) scope = infer e scope >>= λ t. ok (some t)

  pub infer_cases : Cases → Scope → Result (List Inferred)
  infer_cases end scope = ok []
  infer_cases (when_then w t rest) scope =
      infer t scope >>= λ i. infer_cases rest scope >>= λ is. ok (i ∷ is)
