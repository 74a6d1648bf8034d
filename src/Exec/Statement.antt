-- ===== src/Exec/Statement.antt =====
-- `execute` and `execute_resolved` of ferrite-exec/src/executor.rs: one statement, whose subqueries have been
-- folded into value tests.
pub mod Guarded
pub mod Denied
use ferrite.Prelude.{ℕ, ◌+◌, Bool, true, false, Option, none, some, List, [], map}
use ferrite.Common.Error.{Message, exec, Result, ok, err}
use ferrite.Common.Value.{Value, Row}
use ferrite.Common.Schema.{Schema}
use ferrite.Common.Identity.{Permission}
use ferrite.Planner.Physical.{PhysConflictAction, PhysOnConflict, PhysicalPlan, output_schema}
use ferrite.Proc.Registry.{authorize, context, call}
use ferrite.Exec.Compare.{Machine}
use ferrite.Exec.Eval.{Scalars}
use ferrite.Exec.Session.{Tuple, Session, State, Run, ◌>>=◌, ◌>>◌, lift}
use ferrite.Exec.Aggregate.{Rendering, eval_each}
use ferrite.Exec.Order.{Sorting}
use ferrite.Exec.Stream.{empty_row, check_schema, stream}
use ferrite.Exec.Writes.{run_insert, update_each, delete_each}

pub data QueryResult : Type 0 where
  rows : Schema → List Row → QueryResult
  affected : ℕ → QueryResult
  value : Value → QueryResult

-- An upsert can write an existing row.
pub updates : Option PhysOnConflict → Bool
updates none = false
updates (some clause) = elim clause.action [
  | PhysConflictAction.nothing ↦ false
  | PhysConflictAction.update assignments selection ↦ true
]

or_no_rows : Option Schema → Result Schema
or_no_rows none = err (exec (Message.text "plan produces no rows"))
or_no_rows (some schema) = ok schema

module _ (m : Machine) (sc : Scalars) (std : Sorting) (shown : Rendering) {W : Type 0}
    (z : Session W) where
  allowed : ℕ → Permission → Run W (Unit {0})
  allowed txn permission = lift (authorize z.procs z.identity txn permission)

  allowed_if : Bool → ℕ → Permission → Run W (Unit {0})
  unfolding allowed
  allowed_if true txn permission = allowed txn permission
  allowed_if false txn permission = lift (ok tt)

  query : ℕ → PhysicalPlan → Run W QueryResult
  unfolding allowed or_no_rows
  query txn plan = do
    allowed txn Permission.select
    schema ← lift (or_no_rows (output_schema plan))
    tuples ← stream m sc std shown z txn plan
    lift (ok (rows schema (map (λ (t : Tuple). t.row) tuples)))

  -- A denied statement never reaches the storage.
  pub execute_resolved : ℕ → PhysicalPlan → Run W QueryResult
  unfolding query updates allowed_if
  execute_resolved txn (PhysicalPlan.insert target values on_conflict unique) = do
    allowed txn Permission.insert
    allowed_if (updates on_conflict) txn Permission.update
    check_schema m sc std shown z target
    n ← run_insert m sc z txn target values on_conflict unique
    lift (ok (affected n))
  execute_resolved txn (PhysicalPlan.update target source assignments unique) = do
    allowed txn Permission.update
    check_schema m sc std shown z target
    targets ← stream m sc std shown z txn source
    n ← update_each m sc z txn target assignments unique targets 0
    lift (ok (affected n))
  execute_resolved txn (PhysicalPlan.delete target source) = do
    allowed txn Permission.delete
    check_schema m sc std shown z target
    targets ← stream m sc std shown z txn source
    n ← delete_each m sc z txn target targets 0
    lift (ok (affected n))
  execute_resolved txn (PhysicalPlan.call_procedure name args) = do
    values ← lift (eval_each m sc args empty_row)
    result ← lift (call z.procs (context z.procs z.identity txn) name values)
    lift (ok (value result))
  execute_resolved txn other = query txn other

  started : Option ℕ → Run W (Unit {0})
  started none s = (ok tt, record s { deadline = none; since_check = 0 })
  started (some budget) s =
      let (instant, w) = z.engines.now s.world in
      (ok tt, record { deadline = some (instant + budget); since_check = 0; world = w })

  -- The deadline is set before the statement and cleared after it.
  unfoldable pub execute : ℕ → PhysicalPlan → Run W QueryResult
  unfolding execute_resolved started
  execute txn plan s =
      let (_, begun) = started z.limits.statement_timeout s in
      let (outcome, s') = execute_resolved txn plan begun in
      (outcome, record s' { deadline = none })
