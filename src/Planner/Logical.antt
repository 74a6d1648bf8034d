-- ===== src/Planner/Logical.antt =====
-- ferrite-planner/src/logical.rs: relational algebra over resolved tables, and conjunctions.
use ferrite.Prelude.{ℕ, Bool, true, false, Option, none, some, List, [], ◌∷◌, ◌++◌, if◌then◌else◌}
use ferrite.Common.Schema.{Schema}
use ferrite.Planner.Expr.{BinaryOp}
use ferrite.Planner.Named.{Expr, binary, and, AggregateCall}
use ferrite.Planner.Scope.{Scope, for_relation, nullable, concat}

pub record TableSource : Type 0 where
  pub id : ℕ
  pub name : List ℕ
  pub alias : Option (List ℕ)
  pub schema : Schema

abbrev pub qualifiers : TableSource → List (List ℕ)
qualifiers source = elim source.alias [
  | none ↦ source.name ∷ []
  | some alias ↦ source.name ∷ alias ∷ []
]

pub data JoinType : Type 0 where
  inner left right full cross : JoinType

abbrev pub preserves_left : JoinType → Bool
preserves_left JoinType.left = true
preserves_left JoinType.full = true
preserves_left _ = false

abbrev pub preserves_right : JoinType → Bool
preserves_right JoinType.right = true
preserves_right JoinType.full = true
preserves_right _ = false

pub record SortKey : Type 0 where
  pub expr : Expr
  pub asc : Bool
  pub nulls_first : Bool

pub record ProjectionItem : Type 0 where
  pub expr : Expr
  pub output_name : List ℕ

pub data ConflictAction : Type 0 where
  nothing : ConflictAction
  update : List (ℕ × Expr) → Option Expr → ConflictAction

pub record OnConflict : Type 0 where
  pub target : List ℕ
  pub action : ConflictAction

pub data LogicalPlan : Type 0 where
  scan : TableSource → Option Expr → LogicalPlan
  join : LogicalPlan → LogicalPlan → JoinType → Option Expr → LogicalPlan
  filter : LogicalPlan → Expr → LogicalPlan
  aggregate : LogicalPlan → List Expr → List AggregateCall → LogicalPlan
  projection : LogicalPlan → List ProjectionItem → LogicalPlan
  sort : LogicalPlan → List SortKey → LogicalPlan
  distinct : LogicalPlan → LogicalPlan
  limit : LogicalPlan → Option ℕ → ℕ → LogicalPlan
  insert : TableSource → List (List Expr) → Option OnConflict → LogicalPlan
  update : TableSource → LogicalPlan → List (ℕ × Expr) → LogicalPlan
  delete : TableSource → LogicalPlan → LogicalPlan
  call : List ℕ → List Expr → LogicalPlan

abbrev pub children : LogicalPlan → List LogicalPlan
children (scan source conjuncts) = []
children (join l r join_type on) = l ∷ r ∷ []
children (filter input predicate) = input ∷ []
children (aggregate input group_by aggregates) = input ∷ []
children (projection input items) = input ∷ []
children (sort input keys) = input ∷ []
children (distinct input) = input ∷ []
children (limit input count offset) = input ∷ []
children (insert source rows on_conflict) = []
children (LogicalPlan.update source input assignments) = input ∷ []
children (delete source input) = input ∷ []
children (call name args) = []

-- The scope of a join from those of its sides.
abbrev pub join_scope : JoinType → Scope → Scope → Scope
join_scope join_type l r =
    concat (if preserves_right join_type then nullable l else l)
      (if preserves_left join_type then nullable r else r)

abbrev pub both_scopes : Option Scope → Option Scope → Option (Scope × Scope)
both_scopes (some l) (some r) = some (l, r)
both_scopes _ _ = none

abbrev pub scope : LogicalPlan → Option Scope
scope (scan source conjuncts) = some (for_relation source.schema (qualifiers source))
scope (join l r join_type on) = elim (both_scopes (scope l) (scope r)) [
  | none ↦ none
  | some (l_scope, r_scope) ↦ some (join_scope join_type l_scope r_scope)
]
scope (filter input predicate) = scope input
scope (sort input keys) = scope input
scope (distinct input) = scope input
scope (limit input count offset) = scope input
scope _ = none

-- `split_into` appends to its output; this is what it appends.
abbrev pub split_conjunction : Expr → List Expr
split_conjunction (binary l BinaryOp.and r) = split_conjunction l ++ split_conjunction r
split_conjunction other = other ∷ []

abbrev pub conjoin : Expr → List Expr → Expr
conjoin acc [] = acc
conjoin acc (p ∷ preds) = conjoin (and acc p) preds

abbrev pub combine_conjunction : List Expr → Option Expr
combine_conjunction [] = none
combine_conjunction (p ∷ preds) = some (conjoin p preds)
