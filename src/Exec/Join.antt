-- ===== src/Exec/Join.antt =====
-- `nested_loop_join` of ferrite-exec/src/executor.rs.
pub mod Keeps
pub mod Loops
pub mod Meaning
pub mod Joined
use ferrite.Prelude.{
  ℕ, suc, ◌+◌, Bool, true, false, not, ◌&&◌, Option, none, some, List, [], ◌∷◌, ◌++◌, length, set,
  get_or, replicate, if◌then◌else◌,
}
use ferrite.Common.Error.{Result, ok}
use ferrite.Common.Value.{Value, null, Row}
use ferrite.Planner.Expr.{PhysExpr}
use ferrite.Planner.Logical.{JoinType, preserves_left, preserves_right}
use ferrite.Exec.Compare.{Machine}
use ferrite.Exec.Eval.{Scalars, eval_predicate}
use ferrite.Exec.Session.{Tuple, Session, Run, ◌>>=◌, ◌>>◌, lift, tick, admit}

abbrev pub concat : List Value → List Value → Row
concat left right = record { values = left ++ right }

-- A row that no storage row stands behind.
abbrev pub made : Row → Tuple
made row = record { rid = none; row = row }

-- `first().map(|t| t.row.values.len()).unwrap_or(0)`
abbrev pub first_width : List Tuple → ℕ
first_width [] = 0
first_width (t ∷ ts) = length t.row.values

-- Whether the outer row has matched, which inner rows have, and the rows put out.
pub record Progress : Type 0 where
  pub any : Bool
  pub matched : List Bool
  pub out : List Tuple

abbrev pub start : List Tuple → Progress
start inner = record { any = false; matched = replicate (length inner) false; out = [] }

module _ (m : Machine) (sc : Scalars) {W : Type 0} (z : Session W) where
  -- The condition of a join or a scan; without one every row is kept.
  pub condition : Option PhysExpr → Row → Result Bool
  condition none row = ok true
  condition (some predicate) row = eval_predicate m sc predicate row

  unfoldable pub kept_by : Option PhysExpr → Row → Run W Bool
  unfolding condition
  kept_by predicate row = lift (condition predicate row)

  -- `out.push(..)` and `self.admit(out.len())`.
  push : Progress → Row → Run W Progress
  push p joined = do
    let out = p.out ++ made joined ∷ []
    admit z (length out)
    lift (ok (record p { out = out }))

  keep_pair : Progress → ℕ → Row → Bool → Run W Progress
  unfolding push
  keep_pair p position joined false = lift (ok p)
  keep_pair p position joined true =
      push (record p { any = true; matched = set p.matched position true }) joined

  -- The inner rows from a position on.
  inner_loop : Option PhysExpr → Tuple → ℕ → List Tuple → Progress → Run W Progress
  unfolding kept_by keep_pair
  inner_loop predicate left position [] p = lift (ok p)
  inner_loop predicate left position (right ∷ rest) p = do
    tick z
    let joined = concat left.row.values right.row.values
    keep ← kept_by predicate joined
    q ← keep_pair p position joined keep
    inner_loop predicate left (suc position) rest q

  pad_left : Bool → ℕ → Tuple → Progress → Run W Progress
  unfolding push
  pad_left preserved inner_width left p =
      if not p.any && preserved
      then push p (concat left.row.values (replicate inner_width null))
      else lift (ok p)

  outer_loop : JoinType → Option PhysExpr → ℕ → List Tuple → List Tuple → Progress → Run W Progress
  unfolding inner_loop pad_left
  outer_loop j predicate inner_width inner [] p = lift (ok p)
  outer_loop j predicate inner_width inner (left ∷ rest) p = do
    q ← inner_loop predicate left 0 inner (record p { any = false })
    r ← pad_left (preserves_left j) inner_width left q
    outer_loop j predicate inner_width inner rest r

  -- The inner rows that no outer row matched.
  right_loop : ℕ → ℕ → List Tuple → Progress → Run W Progress
  unfolding push
  right_loop outer_width position [] p = lift (ok p)
  right_loop outer_width position (right ∷ rest) p = do
    q ←
        (if get_or p.matched position false
          then lift (ok p)
          else push p (concat (replicate outer_width null) right.row.values))
    right_loop outer_width (suc position) rest q

  unfoldable pub nested_loop_join :
      List Tuple → List Tuple → JoinType → Option PhysExpr → Run W (List Tuple)
  unfolding outer_loop right_loop
  nested_loop_join outer inner j predicate = do
    p ← outer_loop j predicate (first_width inner) inner outer (start inner)
    q ← (if preserves_right j then right_loop (first_width outer) 0 inner p else lift (ok p))
    lift (ok q.out)
