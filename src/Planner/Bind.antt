-- ===== src/Planner/Bind.antt =====
-- `bind_with` and `coerce_literal` of ferrite-planner/src/physical.rs, with `coerce` of lower.rs:
-- names become positions, and a literal takes the type of the column that it is compared with.
use ferrite.Prelude.{ℕ, Option, none, some, List, if◌then◌else◌, ◌==◌}
use ferrite.Prelude.Int.{ℤ}
use ferrite.Common.Error.{Message, plan, Result, ok, err, ◌>>=◌}
use ferrite.Common.Value.{Value, int4, int8, float8, text, timestamp, uuid, json, DataType}
use ferrite.Planner.Expr.{BinaryOp, is_comparison, PhysExpr, OptExpr, Exprs, Branches}
use ferrite.Planner.Named.{
  Expr, column, slot, literal, binary, not, is_null, like, case, cast, function, in_subquery,
  ExprOption, absent, present, ExprList, nil, cons, Cases, end, when_then,
}
use ferrite.Planner.Scope.{Scope, resolve, column_at}

-- What the binding calls: the parsers of lower.rs on the texts of literals, the conversion of an
-- integer to a float, and the number of columns of a subquery, once it is lowered.
pub record Lowering : Type 0 where
  pub parse_uuid : List ℕ → Result ℕ
  pub parse_timestamp : List ℕ → Result ℤ
  pub from_int : ℤ → ℕ
  pub width : ℕ → Result ℕ

abbrev pub column_type : Expr → Scope → Result (Option DataType)
column_type (column reference) scope =
    resolve scope reference >>= λ i. column_at scope i >>= λ c. ok (some c.data_type)
column_type other scope = ok none

-- The type of the column of a comparison of a column and a literal.
abbrev pub target_type : Expr → Expr → Scope → Result (Option DataType)
target_type (column reference) (literal value) scope = column_type (column reference) scope
target_type (literal value) (column reference) scope = column_type (column reference) scope
target_type _ _ scope = ok none

module _ (lo : Lowering) where
  abbrev pub coerce : Value → DataType → Result Value
  coerce (text s) DataType.uuid = lo.parse_uuid s >>= λ v. ok (uuid v)
  coerce (text s) DataType.timestamp = lo.parse_timestamp s >>= λ v. ok (timestamp v)
  coerce (text s) DataType.json = ok (json s)
  coerce (int4 n) DataType.int8 = ok (int8 n)
  coerce (int4 n) DataType.float8 = ok (float8 (lo.from_int n))
  coerce (int8 n) DataType.float8 = ok (float8 (lo.from_int n))
  coerce value target = ok value

  abbrev pub coerce_literal : PhysExpr → DataType → Result PhysExpr
  coerce_literal (PhysExpr.literal value) target =
      coerce value target >>= λ coerced. ok (PhysExpr.literal coerced)
  coerce_literal other target = ok other

  -- The last steps of `align_comparison`.
  abbrev pub aligned : Option DataType → BinaryOp → PhysExpr → PhysExpr → Result PhysExpr
  aligned none op left right = ok (PhysExpr.binary left op right)
  aligned (some target) op left right = coerce_literal left target >>= λ l.
      coerce_literal right target >>= λ r. ok (PhysExpr.binary l op r)

  abbrev pub one_column : ℕ → Result ℕ
  one_column width =
      if width == 1
      then ok width
      else err
          (plan (Message.with_number "the subquery of IN must select exactly one column" width))

  unfoldable mutual
    pub bind : Expr → Scope → Result PhysExpr
    bind (column reference) scope = resolve scope reference >>= λ i. ok (PhysExpr.column i)
    bind (slot position) scope = column_at scope position >>= λ c. ok (PhysExpr.column position)
    bind (literal value) scope = ok (PhysExpr.literal value)
    bind (binary left op right) scope =
        (if is_comparison op then target_type left right scope else ok none) >>= λ target.
        bind left scope >>= λ l. bind right scope >>= λ r. aligned target op l r
    bind (not inner) scope = bind inner scope >>= λ e. ok (PhysExpr.not e)
    bind (is_null inner) scope = bind inner scope >>= λ e. ok (PhysExpr.is_null e)
    bind (like subject pattern negated case_insensitive) scope = bind subject scope >>= λ s.
        bind pattern scope >>= λ p. ok (PhysExpr.like s p negated case_insensitive)
    bind (case operand branches else_result) scope = bind_option operand scope >>= λ o.
        bind_cases branches scope >>= λ bs.
        bind_option else_result scope >>= λ e. ok (PhysExpr.case o bs e)
    bind (cast inner target) scope = bind inner scope >>= λ e. ok (PhysExpr.cast e target)
    bind (function func args) scope = bind_list args scope >>= λ es. ok (PhysExpr.function func es)
    bind (in_subquery inner subquery negated) scope = lo.width subquery >>= λ width.
        one_column width >>= λ w. bind inner scope >>= λ e. ok (PhysExpr.in_subquery e negated)

    pub bind_option : ExprOption → Scope → Result OptExpr
    bind_option absent scope = ok OptExpr.absent
    bind_option (present e) scope = bind e scope >>= λ p. ok (OptExpr.present p)

    pub bind_list : ExprList → Scope → Result Exprs
    bind_list nil scope = ok Exprs.nil
    bind_list (cons e rest) scope =
        bind e scope >>= λ p. bind_list rest scope >>= λ ps. ok (Exprs.cons p ps)

    pub bind_cases : Cases → Scope → Result Branches
    bind_cases end scope = ok Branches.end
    bind_cases (when_then w t rest) scope = bind w scope >>= λ p.
        bind t scope >>= λ q. bind_cases rest scope >>= λ bs. ok (Branches.branch p q bs)
