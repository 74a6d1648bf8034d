-- ===== src/Exec/Stream.antt =====
-- The row sources of ferrite-exec/src/executor.rs: `stream`, `stream_node`, `seq_scan` and `index_scan`. The
-- log line of a missing index provider is left out.
pub mod Keeps
pub mod Bounds
use ferrite.Prelude.{
  ℕ, suc, Bool, true, false, not, Option, none, some, List, [], ◌∷◌, ◌++◌, length, take, drop, min,
  if◌then◌else◌,
}
use ferrite.Common.Error.{Message, plan, exec, Result, ok, err}
use ferrite.Common.Value.{Value, Row}
use ferrite.Common.Schema.{Schema, same_schema}
use ferrite.Planner.Expr.{BinaryOp, PhysExpr, column, literal, binary}
use ferrite.Planner.Physical.{PhysSortKey, PhysAggregate, Target, PhysicalPlan}
use ferrite.Exec.Compare.{Machine}
use ferrite.Exec.Eval.{Scalars, eval, eval_predicate}
use ferrite.Exec.Conform.{fill_added_columns}
use ferrite.Exec.Session.{Tuple, Session, Run, ◌>>=◌, ◌>>◌, lift, reads, tick, admit}
use ferrite.Exec.Join.{kept_by, made, nested_loop_join}
use ferrite.Exec.Aggregate.{Rendering, contains_text, eval_each, run}
use ferrite.Exec.Order.{Sorting, sort}

abbrev pub empty_row : Row
empty_row = record { values = [] }

-- A count that does not fit a `usize` is the greatest one, which no list reaches.
truncated : Option ℕ → List Tuple → List Tuple
truncated none rows = rows
truncated (some count) rows = take count rows

pub limited : Option ℕ → ℕ → List Tuple → List Tuple
unfolding truncated
limited count offset rows = truncated count (drop (min offset (length rows)) rows)

-- The rows whose rendering no row before them has.
pub distinct_rows : Rendering → List (List ℕ) → List Tuple → List Tuple
unfolding contains_text
distinct_rows shown seen [] = []
distinct_rows shown seen (t ∷ ts) =
    let key = shown.all t.row.values in
    elim (contains_text key seen) [
      | true ↦ distinct_rows shown seen ts
      | false ↦ t ∷ distinct_rows shown (key ∷ seen) ts
    ]

module _ (m : Machine) (sc : Scalars) (std : Sorting) (shown : Rendering) {W : Type 0}
    (z : Session W) where
  -- The catalog's schema must be the one that the plan was built with.
  unfoldable pub check_schema : Target → Run W (Unit {0})
  check_schema target = do
    schema ← reads (z.engines.table_schema target.table)
    lift (
        if same_schema schema target.schema
        then ok tt
        else err (
            plan (
              Message.with_text "stale plan: the schema changed since planning of"
                target.table_name)))

  keep_tuple : Tuple → List Tuple → Bool → Run W (List Tuple)
  keep_tuple t out false = lift (ok out)
  keep_tuple t out true = do let more = out ++ t ∷ []; admit z (length more); lift (ok more)

  -- The entries of a scan, each brought up to the schema and then tested.
  scan_entries :
      Schema → Option PhysExpr → List (Result (ℕ × Row)) → List Tuple → Run W (List Tuple)
  unfolding keep_tuple
  scan_entries schema predicate [] out = lift (ok out)
  scan_entries schema predicate (entry ∷ rest) out = do
    tick z
    found ← lift entry
    let row = fill_added_columns schema found.1
    keep ← kept_by m sc z predicate row
    more ← keep_tuple (record { rid = some found.0; row = row }) out keep
    scan_entries schema predicate rest more

  pub seq_scan : ℕ → Target → Option PhysExpr → Run W (List Tuple)
  unfolding scan_entries
  seq_scan txn target predicate = do
    entries ← reads (z.engines.scan txn target.table)
    scan_entries target.schema predicate entries []

  fetch : ℕ → Target → List ℕ → Run W (List Tuple)
  fetch txn target [] = lift (ok [])
  fetch txn target (rid ∷ rest) = do
    row ← reads (z.engines.get txn target.table rid)
    more ← fetch txn target rest
    lift (ok (record { rid = some rid; row = fill_added_columns target.schema row } ∷ more))

  -- A filter without the clock.
  select : PhysExpr → List Tuple → Run W (List Tuple)
  select predicate [] = lift (ok [])
  select predicate (t ∷ ts) = do
    keep ← lift (eval_predicate m sc predicate t.row)
    rest ← select predicate ts
    lift (ok (if keep then t ∷ rest else rest))

  residual_rows : Option PhysExpr → List Tuple → Run W (List Tuple)
  unfolding select
  residual_rows none candidates = lift (ok candidates)
  residual_rows (some predicate) candidates = select predicate candidates

  -- Without a provider, the table is scanned for the key.
  candidates :
      Option (ℕ → ℕ → List ℕ → Value → W → Result (List ℕ))
      → ℕ
      → Target
      → List ℕ
      → ℕ
      → Value
      → Run W (List Tuple)
  unfolding fetch seq_scan
  candidates (some lookup) txn target index position key = do
    rids ← reads (lookup txn target.table index key)
    fetch txn target rids
  candidates none txn target index position key =
      seq_scan txn target (some (binary (column position) BinaryOp.equal (literal key)))

  pub index_scan : ℕ → Target → List ℕ → ℕ → PhysExpr → Option PhysExpr → Run W (List Tuple)
  unfolding candidates residual_rows
  index_scan txn target index position key residual = do
    value ← lift (eval m sc key empty_row)
    found ← candidates z.engines.lookup txn target index position value
    residual_rows residual found

  pub filter_rows : PhysExpr → List Tuple → Run W (List Tuple)
  filter_rows predicate [] = lift (ok [])
  filter_rows predicate (t ∷ ts) = do
    tick z
    keep ← lift (eval_predicate m sc predicate t.row)
    rest ← filter_rows predicate ts
    lift (ok (if keep then t ∷ rest else rest))

  project_rows : List PhysExpr → List Tuple → Result (List Tuple)
  project_rows exprs [] = ok []
  project_rows exprs (t ∷ ts) = elim (eval_each m sc exprs t.row) [
    | err e ↦ err e
    | ok vs ↦ elim (project_rows exprs ts) [
      | err e ↦ err e
      | ok rest ↦ ok (made (record { values = vs }) ∷ rest)
    ]
  ]

  -- `self.admit(rows.len())?; Ok(rows)`
  admitted : List Tuple → Run W (List Tuple)
  admitted rows = do admit z (length rows); lift (ok rows)

  not_a_source : Run W (List Tuple)
  not_a_source = lift (err (exec (Message.text "a statement root is not a row source")))

  unfoldable pub stream : ℕ → PhysicalPlan → Run W (List Tuple)
  unfolding admitted seq_scan check_schema index_scan filter_rows project_rows not_a_source limited
      distinct_rows
  stream txn (PhysicalPlan.seq_scan target predicate) = do
    check_schema target
    rows ← seq_scan txn target predicate
    admitted rows
  stream txn (PhysicalPlan.index_scan target index position key residual) = do
    check_schema target
    rows ← index_scan txn target index position key residual
    admitted rows
  stream txn (PhysicalPlan.filter input predicate) = do
    rows ← stream txn input
    kept ← filter_rows predicate rows
    admitted kept
  stream txn (PhysicalPlan.projection input exprs output) = do
    rows ← stream txn input
    made_rows ← lift (project_rows exprs rows)
    admitted made_rows
  stream txn (PhysicalPlan.nested_loop_join left right j predicate output) = do
    outer ← stream txn left
    inner ← stream txn right
    rows ← nested_loop_join m sc z outer inner j predicate
    admitted rows
  stream txn (PhysicalPlan.aggregate input group_by calls output) = do
    rows ← stream txn input
    groups ← lift (run m sc shown rows group_by calls)
    admitted groups
  stream txn (PhysicalPlan.sort input keys) = do
    rows ← stream txn input
    ordered ← lift (sort m sc std rows keys)
    admitted ordered
  stream txn (PhysicalPlan.distinct input) = do
    rows ← stream txn input
    admitted (distinct_rows shown [] rows)
  stream txn (PhysicalPlan.limit input count offset) = do
    rows ← stream txn input
    admitted (limited count offset rows)
  stream txn other = not_a_source
