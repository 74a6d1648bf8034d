-- ===== src/Exec/Writes.antt =====
-- `run_insert`, `run_update`, `run_delete` and the upsert of ferrite-exec/src/executor.rs.
pub mod Keeps
use ferrite.Prelude.{
  ℕ, ◌+◌, ◌<◌, Bool, true, false, not, ◌||◌, Option, none, some, List, [], ◌∷◌, ◌++◌, map, length,
  set, get_elem?, ltb, if◌then◌else◌,
}
use ferrite.Common.Error.{Message, exec, Result, ok, err}
use ferrite.Common.Value.{Value, null, Row, is_null, same_values}
use ferrite.Common.Schema.{Schema}
use ferrite.Common.Storage.{UniqueKey}
use ferrite.Planner.Expr.{PhysExpr}
use ferrite.Planner.Physical.{PhysConflictAction, nothing, update, PhysOnConflict, Target}
use ferrite.Proc.Context
use ferrite.Proc.Context.{ProcContext, TriggerEvent, with_table, with_event, with_old_row}
use ferrite.Proc.Registry.{ProcDecision, allow, replace, skip, context, fire_before}
use ferrite.Exec.Compare.{Machine}
use ferrite.Exec.Eval.{Scalars, eval, eval_predicate}
use ferrite.Exec.Conform.{fill_added_columns, conform_row}
use ferrite.Exec.Session.{Tuple, Session, Run, ◌>>=◌, ◌>>◌, lift, reads, writes, tick}
use ferrite.Exec.Aggregate.{eval_each}
use ferrite.Exec.Stream.{empty_row}

-- The values at the target's positions, with a null for each that is missing.
conflict_key : List ℕ → Row → List Value
conflict_key target row =
    map (λ p. elim (get_elem? row.values p) [ none ↦ null | some v ↦ v ]) target

some_null : List Value → Bool
some_null [] = false
some_null (v ∷ vs) = is_null v || some_null vs

-- `get_mut(position)` and the write through it.
set_value : Row → ℕ → Value → Result Row
set_value row position value =
    if ltb position (length row.values)
    then ok (record { values = set row.values position value })
    else err (exec (Message.with_number "column out of range" position))

module _ (m : Machine) (sc : Scalars) {W : Type 0} (z : Session W) where
  -- The row to write by a trigger's decision, or none where it is left alone.
  decided : Row → ProcDecision → Option Row
  decided candidate allow = some candidate
  decided candidate (replace row) = some row
  decided candidate skip = none

  -- Every assignment reads the same row.
  pub assign : List (ℕ × PhysExpr) → Row → Row → Run W Row
  unfolding set_value
  assign [] before candidate = lift (ok candidate)
  assign ((position, expr) ∷ rest) before candidate = do
    value ← lift (eval m sc expr before)
    next ← lift (set_value candidate position value)
    assign rest before next

  -- The entries of a scan up to the first whose key is the wanted one.
  find_key : Schema → List ℕ → List Value → List (Result (ℕ × Row)) → Run W (Option (ℕ × Row))
  unfolding conflict_key
  find_key schema target wanted [] = lift (ok none)
  find_key schema target wanted (entry ∷ rest) = do
    tick z
    found ← lift entry
    let row = fill_added_columns schema found.1
    elim (same_values (conflict_key target row) wanted) [
      | true ↦ lift (ok (some (found.0, row)))
      | false ↦ find_key schema target wanted rest
    ]

  conflicting_row : ℕ → Target → List ℕ → Row → Run W (Option (ℕ × Row))
  unfolding find_key some_null conflict_key
  conflicting_row txn t target candidate = elim (some_null (conflict_key target candidate)) [
    | true ↦ lift (ok none)
    | false ↦ do
      entries ← reads (z.engines.scan txn t.table)
      find_key t.schema target (conflict_key target candidate) entries
  ]

  -- `conform_row` and the write; no row counts for none.
  write_update : ℕ → Target → List UniqueKey → ℕ → Option Row → Run W ℕ
  write_update txn t unique rid none = lift (ok 0)
  write_update txn t unique rid (some row) = do
    updated ← lift (conform_row m t.schema row t.table_name)
    written ← writes (z.engines.update_unique txn t.table rid updated unique)
    lift (ok 1)

  -- An update of a row through the triggers, and how many rows it counts for.
  update_row : ℕ → Target → List UniqueKey → ℕ → Row → Row → Run W ℕ
  unfolding decided write_update
  update_row txn t unique rid existing candidate = do
    let ctx =
        with_old_row
          (with_event (with_table (context z.procs z.identity txn) t.table t.table_name)
            TriggerEvent.update)
          existing
    decision ← lift (fire_before z.procs ctx TriggerEvent.update candidate)
    write_update txn t unique rid (decided candidate decision)

  -- The condition of `DO UPDATE ... WHERE`.
  selected : Option PhysExpr → Row → Run W Bool
  selected none combined = lift (ok true)
  selected (some predicate) combined = lift (eval_predicate m sc predicate combined)

  resolve_conflict : ℕ → Target → PhysConflictAction → ℕ → Row → Row → List UniqueKey → Run W ℕ
  unfolding selected assign update_row
  resolve_conflict txn t nothing rid existing excluded unique = lift (ok 0)
  resolve_conflict txn t (update assignments selection) rid existing excluded unique = do
    let combined : Row = record { values = existing.values ++ excluded.values }
    chosen ← selected selection combined
    elim chosen [
      | false ↦ lift (ok 0)
      | true ↦ do
        candidate ← assign assignments combined existing
        update_row txn t unique rid existing candidate
    ]

  -- The row that an upsert runs into.
  conflict_of : ℕ → Target → Option PhysOnConflict → Row → Run W (Option (ℕ × Row))
  unfolding conflicting_row
  conflict_of txn t none row = lift (ok none)
  conflict_of txn t (some clause) row = conflicting_row txn t clause.target row

  action_of : Option PhysOnConflict → PhysConflictAction
  action_of none = nothing
  action_of (some clause) = clause.action

  -- The row in the way is resolved; otherwise the row is inserted.
  insert_or_resolve :
      ℕ → Target → PhysConflictAction → List UniqueKey → Row → Option (ℕ × Row) → Run W ℕ
  unfolding resolve_conflict
  insert_or_resolve txn t action unique row (some (rid, existing)) =
      resolve_conflict txn t action rid existing row unique
  insert_or_resolve txn t action unique row none = do
    rid ← writes (z.engines.insert_unique txn t.table row unique)
    lift (ok 1)

  insert_row : ℕ → Target → Option PhysOnConflict → List UniqueKey → Row → Run W ℕ
  unfolding conflict_of insert_or_resolve action_of
  insert_row txn t on_conflict unique row = do
    conflict ← conflict_of txn t on_conflict row
    insert_or_resolve txn t (action_of on_conflict) unique row conflict

  insert_given : ℕ → Target → Option PhysOnConflict → List UniqueKey → Option Row → Run W ℕ
  unfolding insert_row
  insert_given txn t on_conflict unique none = lift (ok 0)
  insert_given txn t on_conflict unique (some given) = do
    row ← lift (conform_row m t.schema given t.table_name)
    insert_row txn t on_conflict unique row

  insert_each :
      ℕ → Target → Option PhysOnConflict → List UniqueKey → List (List PhysExpr) → ℕ → Run W ℕ
  unfolding insert_given decided
  insert_each txn t on_conflict unique [] affected = lift (ok affected)
  insert_each txn t on_conflict unique (exprs ∷ rest) affected = do
    tick z
    values ← lift (eval_each m sc exprs empty_row)
    let candidate : Row = record { values = values }
    let ctx =
        with_event (with_table (context z.procs z.identity txn) t.table t.table_name)
          TriggerEvent.insert
    decision ← lift (fire_before z.procs ctx TriggerEvent.insert candidate)
    more ← insert_given txn t on_conflict unique (decided candidate decision)
    insert_each txn t on_conflict unique rest (affected + more)

  unfoldable pub run_insert :
      ℕ → Target → List (List PhysExpr) → Option PhysOnConflict → List UniqueKey → Run W ℕ
  unfolding insert_each
  run_insert txn t rows on_conflict unique = insert_each txn t on_conflict unique rows 0

  -- The id of a row, which the source of an update or a delete keeps.
  identified : Option ℕ → Run W ℕ
  identified none = lift (err (exec (Message.text "the source lost row identity")))
  identified (some rid) = lift (ok rid)

  pub update_each : ℕ → Target → List (ℕ × PhysExpr) → List UniqueKey → List Tuple → ℕ → Run W ℕ
  unfolding update_row assign identified
  update_each txn t assignments unique [] affected = lift (ok affected)
  update_each txn t assignments unique (tuple ∷ rest) affected = do
    tick z
    rid ← identified tuple.rid
    candidate ← assign assignments tuple.row tuple.row
    more ← update_row txn t unique rid tuple.row candidate
    update_each txn t assignments unique rest (affected + more)

  -- A delete has no row to rewrite.
  permitted : Target → ProcDecision → Result Bool
  permitted t allow = ok true
  permitted t skip = ok false
  permitted t (replace row) =
      err (exec (Message.with_text "a BEFORE DELETE trigger returned Replace on" t.table_name))

  pub delete_each : ℕ → Target → List Tuple → ℕ → Run W ℕ
  unfolding permitted identified
  delete_each txn t [] affected = lift (ok affected)
  delete_each txn t (tuple ∷ rest) affected = do
    tick z
    rid ← identified tuple.rid
    let ctx =
        with_old_row
          (with_event (with_table (context z.procs z.identity txn) t.table t.table_name)
            TriggerEvent.delete)
          tuple.row
    decision ← lift (fire_before z.procs ctx TriggerEvent.delete tuple.row)
    go ← lift (permitted t decision)
    more ← elim go [
      | false ↦ lift (ok 0)
      | true ↦ do gone ← writes (z.engines.delete txn t.table rid); lift (ok 1)
    ]
    delete_each txn t rest (affected + more)
