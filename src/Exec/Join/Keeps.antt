-- ===== src/Exec/Join/Keeps.antt =====
-- A join of ferrite-exec/src/executor.rs changes nothing of the engines but their clock.
use ferrite.Prelude.{ℕ, suc, Bool, true, false, Option, List, [], ◌∷◌}
use ferrite.Common.Value.{Row}
use ferrite.Planner.Expr.{PhysExpr}
use ferrite.Planner.Logical.{JoinType}
use ferrite.Exec.Compare.{Machine}
use ferrite.Exec.Eval.{Scalars}
use ferrite.Exec.Session.{Tuple, Session, tick}
use ferrite.Exec.Session.Keeps.{Keeps, Keeps-tick, keeps_rules}
use ferrite.Exec.Join.{
  Progress, kept_by, push, keep_pair, inner_loop, pad_left, outer_loop, right_loop,
  nested_loop_join,
}

module _ (m : Machine) (sc : Scalars) {W : Type 0} (z : Session W) (P : W → Type 0)
    (clock : (w : W) → P w → P (z.engines.now w).1) where
  pub tick-Keeps : Keeps P (tick z)
  tick-Keeps = Keeps-tick z clock

  pub kept_by-Keeps :
      (predicate : Option PhysExpr) (row : Row) → Keeps P (kept_by m sc z predicate row)
  unfolding kept_by
  kept_by-Keeps predicate row = search keeps_rules

  push-Keeps : (p : Progress) (row : Row) → Keeps P (push m sc z p row)
  unfolding push
  push-Keeps p row = search keeps_rules

  keep_pair-Keeps :
      (p : Progress) (i : ℕ) (row : Row) (keep : Bool) → Keeps P (keep_pair m sc z p i row keep)
  unfolding keep_pair
  keep_pair-Keeps p i row false = search keeps_rules
  keep_pair-Keeps p i row true = search (push-Keeps)

  inner_loop-Keeps :
      (predicate : Option PhysExpr) (left : Tuple) (i : ℕ) (inner : List Tuple) (p : Progress)
      → Keeps P (inner_loop m sc z predicate left i inner p)
  unfolding inner_loop
  inner_loop-Keeps predicate left i [] p = search keeps_rules
  inner_loop-Keeps predicate left i (r ∷ rs) p = search (
    keeps_rules,
    tick-Keeps,
    keep_pair-Keeps,
    λ (q : Progress). inner_loop-Keeps predicate left (suc i) rs q,
  )

  pad_left-Keeps :
      (keep : Bool) (width : ℕ) (left : Tuple) (p : Progress)
      → Keeps P (pad_left m sc z keep width left p)
  unfolding pad_left
  pad_left-Keeps keep width left p = search (keeps_rules, push-Keeps)

  outer_loop-Keeps :
      (j : JoinType) (predicate : Option PhysExpr) (width : ℕ) (inner outer : List Tuple)
      (p : Progress)
      → Keeps P (outer_loop m sc z j predicate width inner outer p)
  unfolding outer_loop
  outer_loop-Keeps j predicate width inner [] p = search keeps_rules
  outer_loop-Keeps j predicate width inner (l ∷ ls) p = search (
    keeps_rules,
    inner_loop-Keeps,
    pad_left-Keeps,
    λ (q : Progress). outer_loop-Keeps j predicate width inner ls q,
  )

  right_loop-Keeps :
      (width i : ℕ) (inner : List Tuple) (p : Progress)
      → Keeps P (right_loop m sc z width i inner p)
  unfolding right_loop
  right_loop-Keeps width i [] p = search keeps_rules
  right_loop-Keeps width i (r ∷ rs) p =
      search (keeps_rules, push-Keeps, λ (q : Progress). right_loop-Keeps width (suc i) rs q)

  pub nested_loop_join-Keeps :
      (outer inner : List Tuple) (j : JoinType) (predicate : Option PhysExpr)
      → Keeps P (nested_loop_join m sc z outer inner j predicate)
  unfolding nested_loop_join
  nested_loop_join-Keeps outer inner j predicate =
      search (keeps_rules, outer_loop-Keeps, right_loop-Keeps)
