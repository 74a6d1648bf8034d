-- ===== src/Exec/Examples.antt =====
-- The theorems on the executor at concrete plans, rows and sessions.
use ferrite.Prelude.{◌≡◌, ◌≤◌, refl, true, none, some, [], ◌∷◌, length, arith, same_list}
use ferrite.Prelude.Int.{pos}
use ferrite.Common.Value.{null, boolean, int4, int8, Row}
use ferrite.Planner.Expr.{BinaryOp, PhysExpr, column, literal, binary}
use ferrite.Planner.Logical.{JoinType}
use ferrite.Planner.Physical.{PhysicalPlan}
use ferrite.Planner.Rules.Relation.{join_rows}
use ferrite.Proc.Context.{has_permission}
use ferrite.Proc.Registry.{context, procedure}
use ferrite.Exec.Eval.{eval}
use ferrite.Exec.Eval.Logic.{truth}
use ferrite.Exec.Session.Ends.{Outcome}
use ferrite.Exec.Session.Yields.{Given, Fails}
use ferrite.Exec.Join.{nested_loop_join}
use ferrite.Exec.Join.Loops.{test}
use ferrite.Exec.Join.Meaning.{rows_of}
use ferrite.Exec.Join.Joined.{JoinFault, nested_loop_join-join_rows}
use ferrite.Exec.Stream.{filter_rows, stream}
use ferrite.Exec.Stream.Bounds.{stream-le-max_rows, filter_rows-late}
use ferrite.Exec.Statement.{execute, execute_resolved}
use ferrite.Exec.Statement.Guarded.{execute-Guarded}
use ferrite.Exec.Statement.Denied.{refusal, execute_resolved-denied}
use ferrite.Exec.Subquery.{value_test}
use ferrite.Exec.Subquery.Meaning.{in_list, value_test-in_list}
use ferrite.Exec.Samples.{
  machine, scalars, rendering, sorting, target, session, state, tuple, schema, Written, guards,
}

abbrev same_number : PhysExpr
same_number = binary (column 0) BinaryOp.equal (column 1)

-- Two rows, the second of which has no partner.
nested_loop_join-join_rows_example :
    Outcome
      (some 1000)
      (JoinFault machine scalars session
        (some same_number)
        (some 1000)
        (tuple (int4 (pos 1)) ∷ tuple (int4 (pos 2)) ∷ [])
        (tuple (int4 (pos 1)) ∷ []))
      (λ ts.
        rows_of ts
        ≡ join_rows JoinType.full 1 1
            (test machine scalars session (some same_number))
            ((int4 (pos 1) ∷ []) ∷ (int4 (pos 2) ∷ []) ∷ [])
            ((int4 (pos 1) ∷ []) ∷ []))
      (nested_loop_join machine scalars session
        (tuple (int4 (pos 1)) ∷ tuple (int4 (pos 2)) ∷ [])
        (tuple (int4 (pos 1)) ∷ [])
        JoinType.full
        (some same_number)
        state)
nested_loop_join-join_rows_example =
    nested_loop_join-join_rows machine scalars session (some same_number) 1 1
      (tuple (int4 (pos 1)) ∷ tuple (int4 (pos 2)) ∷ []) (tuple (int4 (pos 1)) ∷ []) JoinType.full
      state (refl, (refl, tt)) (refl, tt)

abbrev insertion : PhysicalPlan
insertion = PhysicalPlan.insert target ((literal (int4 (pos 1)) ∷ literal null ∷ []) ∷ []) none []

execute-Guarded_example :
    Written (execute machine scalars sorting rendering session 3 insertion state).1.world
execute-Guarded_example =
    execute-Guarded machine scalars sorting rendering session (λ table. schema) Written guards 3
      insertion state refl tt

abbrev calling : PhysicalPlan
calling = PhysicalPlan.call_procedure (99 ∷ []) (literal null ∷ [])

abbrev selection : PhysicalPlan
selection = PhysicalPlan.seq_scan target none

execute_resolved-denied_example :
    execute_resolved machine scalars sorting rendering session 3 calling state
    ≡ (refusal machine scalars sorting rendering session 3 calling, state)
unfolding has_permission context same_list procedure
execute_resolved-denied_example =
    execute_resolved-denied machine scalars sorting rendering session 3 calling state refl

stream-le-max_rows_example :
    Given
      (λ ts. length ts ≤ 3)
      (stream machine scalars sorting rendering session 3 selection state).0
stream-le-max_rows_example =
    stream-le-max_rows machine scalars sorting rendering session 3 selection state (omega arith)

filter_rows-late_example :
    Fails
      (filter_rows machine scalars sorting rendering session
        (literal (boolean true))
        (tuple null ∷ tuple null ∷ []))
      state
filter_rows-late_example =
    filter_rows-late machine scalars sorting rendering session (literal (boolean true))
      (tuple null ∷ tuple null ∷ []) state 1000 refl (omega arith) (omega arith) (omega arith)

abbrev row : Row
row = record { values = int4 (pos 7) ∷ [] }

value_test-in_list_example :
    truth (eval machine scalars (value_test (column 0) (null ∷ int8 (pos 7) ∷ []) true) row)
    ≡ in_list machine true (null ∷ int8 (pos 7) ∷ []) (eval machine scalars (column 0) row)
value_test-in_list_example =
    value_test-in_list machine scalars row (column 0) (null ∷ int8 (pos 7) ∷ []) true
