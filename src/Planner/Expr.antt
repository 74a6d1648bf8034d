-- ===== src/Planner/Expr.antt =====
-- ferrite-planner/src/expr.rs, scalar.rs and physical.rs: the operators, the scalar functions, and
-- expressions whose columns are positions.
use ferrite.Prelude.{ℕ, Bool, true, false}
use ferrite.Common.Value.{Value, DataType}

pub data BinaryOp : Type 0 where
  equal not_eq lt lt_eq gt gt_eq and or plus minus multiply divide modulo concat : BinaryOp

unfoldable pub is_comparison : BinaryOp → Bool
is_comparison equal = true
is_comparison not_eq = true
is_comparison lt = true
is_comparison lt_eq = true
is_comparison gt = true
is_comparison gt_eq = true
is_comparison _ = false

unfoldable pub is_arithmetic : BinaryOp → Bool
is_arithmetic plus = true
is_arithmetic minus = true
is_arithmetic multiply = true
is_arithmetic divide = true
is_arithmetic modulo = true
is_arithmetic concat = true
is_arithmetic _ = false

pub data ScalarFunc : Type 0 where
  coalesce lower upper nocase substr hex randomblob datetime date : ScalarFunc

-- The lists and the optional parts of an expression stand in the block. The subplan of
-- `in_subquery` is left out, since no evaluation reads it.
mutual
  pub data PhysExpr : Type 0 where
    column : ℕ → PhysExpr
    literal : Value → PhysExpr
    binary : PhysExpr → BinaryOp → PhysExpr → PhysExpr
    not : PhysExpr → PhysExpr
    is_null : PhysExpr → PhysExpr
    like : PhysExpr → PhysExpr → Bool → Bool → PhysExpr
    case : OptExpr → Branches → OptExpr → PhysExpr
    cast : PhysExpr → DataType → PhysExpr
    function : ScalarFunc → Exprs → PhysExpr
    in_subquery : PhysExpr → Bool → PhysExpr

  pub data OptExpr : Type 0 where
    absent : OptExpr
    present : PhysExpr → OptExpr

  pub data Exprs : Type 0 where
    nil : Exprs
    cons : PhysExpr → Exprs → Exprs

  pub data Branches : Type 0 where
    end : Branches
    branch : PhysExpr → PhysExpr → Branches → Branches
