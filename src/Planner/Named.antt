-- ===== src/Planner/Named.antt =====
-- ferrite-planner/src/expr.rs: expressions whose columns are names.
use ferrite.Prelude.{ℕ, Bool, Option, none, some, List, [], ◌∷◌, ◌++◌}
use ferrite.Common.Value.{Value, DataType}
use ferrite.Planner.Expr.{BinaryOp, ScalarFunc}

-- A name is its bytes.
pub record ColumnRef : Type 0 where
  pub qualifier : Option (List ℕ)
  pub name : List ℕ

-- The `Display` of a reference.
abbrev pub shown : ColumnRef → List ℕ
shown reference = elim reference.qualifier [
  | none ↦ reference.name
  | some qualifier ↦ qualifier ++ (46 ∷ reference.name)
]

-- The lists and the optional parts of an expression stand in the block. A subquery is the number
-- of its plan.
mutual
  pub data Expr : Type 0 where
    column : ColumnRef → Expr
    slot : ℕ → Expr
    literal : Value → Expr
    binary : Expr → BinaryOp → Expr → Expr
    not : Expr → Expr
    is_null : Expr → Expr
    like : Expr → Expr → Bool → Bool → Expr
    case : ExprOption → Cases → ExprOption → Expr
    cast : Expr → DataType → Expr
    function : ScalarFunc → ExprList → Expr
    in_subquery : Expr → ℕ → Bool → Expr

  pub data ExprOption : Type 0 where
    absent : ExprOption
    present : Expr → ExprOption

  pub data ExprList : Type 0 where
    nil : ExprList
    cons : Expr → ExprList → ExprList

  pub data Cases : Type 0 where
    end : Cases
    when_then : Expr → Expr → Cases → Cases

abbrev pub and : Expr → Expr → Expr
and left right = binary left BinaryOp.and right

abbrev pub eq : Expr → Expr → Expr
eq left right = binary left BinaryOp.equal right

-- `collect_columns` appends to its output; this is what it appends.
unfoldable mutual
  pub referenced_columns : Expr → List ColumnRef
  referenced_columns (column reference) = reference ∷ []
  referenced_columns (slot position) = []
  referenced_columns (literal value) = []
  referenced_columns (binary left op right) = referenced_columns left ++ referenced_columns right
  referenced_columns (not inner) = referenced_columns inner
  referenced_columns (is_null inner) = referenced_columns inner
  referenced_columns (cast inner data_type) = referenced_columns inner
  referenced_columns (like subject pattern negated case_insensitive) =
      referenced_columns subject ++ referenced_columns pattern
  referenced_columns (case operand branches else_result) =
      option_columns operand ++ (option_columns else_result ++ case_columns branches)
  referenced_columns (function func args) = list_columns args
  referenced_columns (in_subquery inner subquery negated) = referenced_columns inner

  pub option_columns : ExprOption → List ColumnRef
  option_columns absent = []
  option_columns (present e) = referenced_columns e

  pub list_columns : ExprList → List ColumnRef
  list_columns nil = []
  list_columns (cons e rest) = referenced_columns e ++ list_columns rest

  pub case_columns : Cases → List ColumnRef
  case_columns end = []
  case_columns (when_then w t rest) =
      referenced_columns w ++ (referenced_columns t ++ case_columns rest)

pub data AggregateFunc : Type 0 where
  count sum avg min max : AggregateFunc

pub record AggregateCall : Type 0 where
  pub func : AggregateFunc
  pub arg : Option Expr
  pub distinct : Bool
