-- ===== src/Planner/Rules.antt =====
-- ferrite-planner/src/rules.rs: predicates are pushed towards the scans.
pub mod Relation
use ferrite.Prelude.{
  Bool, true, false, not, ◌&&◌, ◌||◌, Option, none, some, List, [], ◌∷◌, ◌++◌, if◌then◌else◌,
}
use ferrite.Planner.Named.{Expr, column, ColumnRef, referenced_columns}
use ferrite.Planner.Scope.{Scope, can_resolve}
use ferrite.Planner.Logical.{
  JoinType, preserves_left, preserves_right, ProjectionItem, LogicalPlan, scan, join, filter,
  aggregate, projection, sort, distinct, limit, insert, delete, call, both_scopes, scope,
  split_conjunction, combine_conjunction,
}

pub data Side : Type 0 where
  left right : Side

abbrev pub all : List ColumnRef → (ColumnRef → Bool) → Bool
all [] test = true
all (r ∷ rs) test = let rest = all rs test in test r && rest

abbrev pub any : List ColumnRef → (ColumnRef → Bool) → Bool
any [] test = false
any (r ∷ rs) test = let rest = any rs test in test r || rest

abbrev pub side_of : List ColumnRef → Scope → Scope → Option Side
side_of [] left_scope right_scope = none
side_of (r ∷ rs) left_scope right_scope =
    let references = r ∷ rs in
    if all references (can_resolve left_scope) && not (any references (can_resolve right_scope))
    then some left
    else if all references (can_resolve right_scope)
        && not (any references (can_resolve left_scope))
    then some right
    else none

abbrev pub side : Expr → Scope → Scope → Option Side
side expr left_scope right_scope = side_of (referenced_columns expr) left_scope right_scope

abbrev pub split_option : Option Expr → List Expr
split_option none = []
split_option (some e) = split_conjunction e

-- Where the conjuncts above a join and those of its condition go.
pub record Parts : Type 0 where
  pub to_left : List Expr
  pub to_right : List Expr
  pub above : List Expr
  pub condition : List Expr

abbrev pub add_left : Expr → Parts → Parts
add_left e parts = record parts { to_left = e ∷ parts.to_left }

abbrev pub add_right : Expr → Parts → Parts
add_right e parts = record parts { to_right = e ∷ parts.to_right }

abbrev pub add_above : Expr → Parts → Parts
add_above e parts = record parts { above = e ∷ parts.above }

abbrev pub add_condition : Expr → Parts → Parts
add_condition e parts = record parts { condition = e ∷ parts.condition }

abbrev pub is_inner : JoinType → Bool
is_inner JoinType.inner = true
is_inner JoinType.cross = true
is_inner _ = false

abbrev pub place_pending : JoinType → Option Side → Expr → Parts → Parts
place_pending join_type (some left) e parts =
    if not (preserves_right join_type)
    then add_left e parts
    else if is_inner join_type
    then add_condition e parts
    else add_above e parts
place_pending join_type (some right) e parts =
    if not (preserves_left join_type)
    then add_right e parts
    else if is_inner join_type
    then add_condition e parts
    else add_above e parts
place_pending join_type none e parts =
    if is_inner join_type then add_condition e parts else add_above e parts

abbrev pub place_condition : JoinType → Option Side → Expr → Parts → Parts
place_condition join_type (some left) e parts =
    if not (preserves_left join_type) then add_left e parts else add_condition e parts
place_condition join_type (some right) e parts =
    if not (preserves_right join_type) then add_right e parts else add_condition e parts
place_condition join_type none e parts = add_condition e parts

-- The conjuncts are placed in order: those that are pending, then those of the condition.
abbrev pub distribute_condition : JoinType → Scope → Scope → List Expr → Parts
distribute_condition join_type l r [] = record {
  to_left = [];
  to_right = [];
  above = [];
  condition = [];
}
distribute_condition join_type l r (e ∷ es) =
    place_condition join_type (side e l r) e (distribute_condition join_type l r es)

abbrev pub distribute : JoinType → Scope → Scope → List Expr → List Expr → Parts
distribute join_type l r [] on = distribute_condition join_type l r on
distribute join_type l r (e ∷ es) on =
    place_pending join_type (side e l r) e (distribute join_type l r es on)

abbrev pub is_transparent : List ProjectionItem → Bool
is_transparent [] = true
is_transparent (item ∷ items) =
    let rest = is_transparent items in elim item.expr [ column reference ↦ rest | _ ↦ false ]

abbrev pub materialize : LogicalPlan → List Expr → LogicalPlan
materialize plan pending = elim (combine_conjunction pending) [
  | none ↦ plan
  | some predicate ↦ filter plan predicate
]

unfoldable pub push_predicates : LogicalPlan → List Expr → LogicalPlan
push_predicates (filter input predicate) pending =
    push_predicates input (pending ++ split_conjunction predicate)
push_predicates (scan source conjuncts) pending =
    scan source (combine_conjunction (split_option conjuncts ++ pending))
push_predicates (join l r join_type on) pending = elim (both_scopes (scope l) (scope r)) [
  | none ↦ materialize (join (push_predicates l []) (push_predicates r []) join_type on) pending
  | some (left_scope, right_scope) ↦
      let parts = distribute join_type left_scope right_scope pending (split_option on) in
      materialize
        (join (push_predicates l parts.to_left) (push_predicates r parts.to_right) join_type
          (combine_conjunction parts.condition))
        parts.above
]
push_predicates (projection input items) pending =
    if is_transparent items
    then projection (push_predicates input pending) items
    else materialize (projection (push_predicates input []) items) pending
push_predicates (sort input keys) pending = sort (push_predicates input pending) keys
push_predicates (aggregate input group_by aggregates) pending =
    materialize (aggregate (push_predicates input []) group_by aggregates) pending
push_predicates (distinct input) pending = materialize (distinct (push_predicates input [])) pending
push_predicates (limit input count offset) pending =
    materialize (limit (push_predicates input []) count offset) pending
push_predicates (LogicalPlan.update source input assignments) pending =
    LogicalPlan.update source (push_predicates input pending) assignments
push_predicates (delete source input) pending = delete source (push_predicates input pending)
push_predicates (insert source rows on_conflict) pending =
    materialize (insert source rows on_conflict) pending
push_predicates (call name args) pending = materialize (call name args) pending

unfoldable pub optimize : LogicalPlan → LogicalPlan
unfolding push_predicates
optimize plan = push_predicates plan []
