-- ===== src/Planner/Physical.antt =====
-- ferrite-planner/src/physical.rs: the plans that the executor runs.
use ferrite.Prelude.{ℕ, Bool, true, false, Option, none, some, List}
use ferrite.Common.Schema.{Schema}
use ferrite.Common.Storage.{UniqueKey}
use ferrite.Planner.Expr.{PhysExpr}
use ferrite.Planner.Named.{AggregateFunc}
use ferrite.Planner.Logical.{JoinType}

pub record PhysAggregate : Type 0 where
  pub func : AggregateFunc
  pub arg : Option PhysExpr
  pub distinct : Bool

pub data PhysConflictAction : Type 0 where
  nothing : PhysConflictAction
  update : List (ℕ × PhysExpr) → Option PhysExpr → PhysConflictAction

pub record PhysOnConflict : Type 0 where
  pub target : List ℕ
  pub action : PhysConflictAction

pub record PhysSortKey : Type 0 where
  pub expr : PhysExpr
  pub asc : Bool
  pub nulls_first : Bool

-- A table of a plan: its id, its name and the schema that the plan was built with.
pub record Target : Type 0 where
  pub table : ℕ
  pub table_name : List ℕ
  pub schema : Schema

pub data PhysicalPlan : Type 0 where
  seq_scan : Target → Option PhysExpr → PhysicalPlan
  index_scan : Target → List ℕ → ℕ → PhysExpr → Option PhysExpr → PhysicalPlan
  nested_loop_join :
      PhysicalPlan → PhysicalPlan → JoinType → Option PhysExpr → Schema → PhysicalPlan
  filter : PhysicalPlan → PhysExpr → PhysicalPlan
  aggregate : PhysicalPlan → List PhysExpr → List PhysAggregate → Schema → PhysicalPlan
  projection : PhysicalPlan → List PhysExpr → Schema → PhysicalPlan
  sort : PhysicalPlan → List PhysSortKey → PhysicalPlan
  distinct : PhysicalPlan → PhysicalPlan
  limit : PhysicalPlan → Option ℕ → ℕ → PhysicalPlan
  insert : Target → List (List PhysExpr) → Option PhysOnConflict → List UniqueKey → PhysicalPlan
  update : Target → PhysicalPlan → List (ℕ × PhysExpr) → List UniqueKey → PhysicalPlan
  delete : Target → PhysicalPlan → PhysicalPlan
  call_procedure : List ℕ → List PhysExpr → PhysicalPlan

abbrev pub output_schema : PhysicalPlan → Option Schema
output_schema (seq_scan target predicate) = some target.schema
output_schema (index_scan target index column key residual) = some target.schema
output_schema (nested_loop_join left right join_type predicate output) = some output
output_schema (aggregate input group_by aggregates output) = some output
output_schema (projection input exprs output) = some output
output_schema (filter input predicate) = output_schema input
output_schema (sort input keys) = output_schema input
output_schema (distinct input) = output_schema input
output_schema (limit input count offset) = output_schema input
output_schema _ = none

abbrev pub preserves_row_identity : PhysicalPlan → Bool
preserves_row_identity (seq_scan target predicate) = true
preserves_row_identity (index_scan target index column key residual) = true
preserves_row_identity (filter input predicate) = preserves_row_identity input
preserves_row_identity _ = false
