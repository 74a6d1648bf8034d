-- ===== src/Exec/Statement/Guarded.antt =====
-- What a statement of ferrite-exec/src/executor.rs may do to the storage.
use ferrite.Prelude.{ℕ, ◌≡◌, Bool, true, false, Option, none, some}
use ferrite.Common.Schema.{Schema}
use ferrite.Common.Identity.{Permission}
use ferrite.Planner.Physical.{PhysicalPlan}
use ferrite.Exec.Compare.{Machine}
use ferrite.Exec.Eval.{Scalars}
use ferrite.Exec.Session.{Session, State}
use ferrite.Exec.Session.Keeps.{Keeps, Keeps-lift, Keeps-bind}
use ferrite.Exec.Aggregate.{Rendering}
use ferrite.Exec.Order.{Sorting}
use ferrite.Exec.Stream.Keeps.{check_schema-Keeps, stream-Keeps}
use ferrite.Exec.Writes.Keeps.{Guards, run_insert-Keeps, update_each-Keeps, delete_each-Keeps}
use ferrite.Exec.Statement.{allowed, allowed_if, query, execute_resolved, started, execute}

-- A statement that writes was planned with the schema of its table.
abbrev pub IsPlanned : (ℕ → Schema) → PhysicalPlan → Type 0
IsPlanned schema_of (PhysicalPlan.insert t rows o unique) = t.schema ≡ schema_of t.table
IsPlanned schema_of (PhysicalPlan.update t source assignments unique) = t.schema ≡ schema_of t.table
IsPlanned schema_of (PhysicalPlan.delete t source) = t.schema ≡ schema_of t.table
IsPlanned schema_of _ = Unit

module _ (m : Machine) (sc : Scalars) (std : Sorting) (shown : Rendering) {W : Type 0}
    (z : Session W) (schema_of : ℕ → Schema) (P : W → Type 0)
    (g : Guards z.engines schema_of P) where
  query-Keeps : (txn : ℕ) (plan : PhysicalPlan) → Keeps P (query m sc std shown z txn plan)
  unfolding query allowed
  query-Keeps txn plan = Keeps-bind _ _ (Keeps-lift _) λ u. Keeps-bind _ _ (Keeps-lift _) λ schema.
      Keeps-bind _ _ (stream-Keeps m sc std shown z P g.clock txn plan) λ tuples. Keeps-lift _

  allowed_if-Keeps :
      (b : Bool) (txn : ℕ) (p : Permission) → Keeps P (allowed_if m sc std shown z b txn p)
  unfolding allowed_if
  allowed_if-Keeps true txn p = Keeps-lift _
  allowed_if-Keeps false txn p = Keeps-lift _

  statement-Keeps :
      (txn : ℕ) (plan : PhysicalPlan)
      → IsPlanned schema_of plan
      → Keeps P (execute_resolved m sc std shown z txn plan)
  unfolding execute_resolved allowed
  statement-Keeps txn (PhysicalPlan.insert t rows o unique) h = Keeps-bind _ _ (Keeps-lift _) λ u.
      Keeps-bind _ _ (allowed_if-Keeps _ txn _) λ v.
        Keeps-bind _ _ (check_schema-Keeps m sc std shown z P g.clock t) λ checked.
          Keeps-bind _ _ (run_insert-Keeps m sc z schema_of P g t h txn rows o unique)
            λ n. Keeps-lift _
  statement-Keeps txn (PhysicalPlan.update t source assignments unique) h =
      Keeps-bind _ _ (Keeps-lift _) λ u.
        Keeps-bind _ _ (check_schema-Keeps m sc std shown z P g.clock t) λ checked.
          Keeps-bind _ _ (stream-Keeps m sc std shown z P g.clock txn source) λ tuples.
            Keeps-bind _ _
              (update_each-Keeps m sc z schema_of P g t h txn assignments unique tuples 0)
              λ n. Keeps-lift _
  statement-Keeps txn (PhysicalPlan.delete t source) h = Keeps-bind _ _ (Keeps-lift _) λ u.
      Keeps-bind _ _ (check_schema-Keeps m sc std shown z P g.clock t) λ checked.
        Keeps-bind _ _ (stream-Keeps m sc std shown z P g.clock txn source) λ tuples.
          Keeps-bind _ _ (delete_each-Keeps m sc z schema_of P g t h txn tuples 0) λ n. Keeps-lift _
  statement-Keeps txn (PhysicalPlan.call_procedure name args) h =
      Keeps-bind _ _ (Keeps-lift _) λ values. Keeps-bind _ _ (Keeps-lift _) λ result. Keeps-lift _
  statement-Keeps txn plan h = query-Keeps txn plan

  started-at :
      (budget : Option ℕ) (s : State W) → P s.world → P (started m sc std shown z budget s).1.world
  unfolding started
  started-at none s h = h
  started-at (some budget) s h = g.clock s.world h

  -- For a statement that was planned with the schema of the table it writes to, and engines that
  -- keep an invariant under their clock, under deletes, and under inserts and updates of rows that
  -- conform to the schema of their table, the invariant holds after execute, whether the statement
  -- succeeds or fails, and whatever the triggers put in place of a row: no other row is written. A
  -- row conforms if it has a value for each column, of the column's type or null where that is
  -- allowed.
  pub execute-Guarded :
      (txn : ℕ) (plan : PhysicalPlan) (s : State W)
      → IsPlanned schema_of plan
      → P s.world
      → P (execute m sc std shown z txn plan s).1.world
  unfolding execute
  execute-Guarded txn plan s h k =
      (statement-Keeps txn plan h).at (started m sc std shown z z.limits.statement_timeout s).1
        (started-at z.limits.statement_timeout s k)
