-- ===== src/Exec/Stream/Keeps.antt =====
-- The row sources of ferrite-exec/src/executor.rs change nothing of the engines but their clock.
use ferrite.Prelude.{ℕ, Bool, true, false, Option, none, some, List, [], ◌∷◌}
use ferrite.Common.Error.{Result}
use ferrite.Common.Value.{Value, Row}
use ferrite.Common.Schema.{Schema}
use ferrite.Planner.Expr.{PhysExpr}
use ferrite.Planner.Physical.{Target, PhysicalPlan}
use ferrite.Exec.Compare.{Machine}
use ferrite.Exec.Eval.{Scalars}
use ferrite.Exec.Session.{Tuple, Session, Run, ◌>>=◌, lift}
use ferrite.Exec.Session.Keeps.{Keeps, Keeps-lift, Keeps-reads, Keeps-bind, keeps_rules}
use ferrite.Exec.Join.Keeps.{tick-Keeps, kept_by-Keeps, nested_loop_join-Keeps}
use ferrite.Exec.Aggregate.{Rendering, run}
use ferrite.Exec.Order.{Sorting, sort}
use ferrite.Exec.Stream.{
  check_schema, keep_tuple, scan_entries, seq_scan, fetch, select, residual_rows, candidates,
  index_scan, filter_rows, project_rows, admitted, not_a_source, stream,
}

module _ (m : Machine) (sc : Scalars) (std : Sorting) (shown : Rendering) {W : Type 0}
    (z : Session W) (P : W → Type 0) (clock : (w : W) → P w → P (z.engines.now w).1) where
  pub check_schema-Keeps : (t : Target) → Keeps P (check_schema m sc std shown z t)
  unfolding check_schema
  check_schema-Keeps t = search keeps_rules

  keep_tuple-Keeps :
      (t : Tuple) (out : List Tuple) (keep : Bool)
      → Keeps P (keep_tuple m sc std shown z t out keep)
  unfolding keep_tuple
  keep_tuple-Keeps t out false = search keeps_rules
  keep_tuple-Keeps t out true = search keeps_rules

  scan_entries-Keeps :
      (schema : Schema) (predicate : Option PhysExpr) (entries : List (Result (ℕ × Row)))
      (out : List Tuple)
      → Keeps P (scan_entries m sc std shown z schema predicate entries out)
  unfolding scan_entries
  scan_entries-Keeps schema predicate [] out = search keeps_rules
  scan_entries-Keeps schema predicate (entry ∷ rest) out =
      Keeps-bind _ _ (tick-Keeps m sc z P clock) λ u. Keeps-bind _ _ (Keeps-lift entry) λ found.
        Keeps-bind _ _ (kept_by-Keeps m sc z P clock predicate _) λ keep.
          Keeps-bind _ _ (keep_tuple-Keeps _ out keep) (scan_entries-Keeps schema predicate rest)

  seq_scan-Keeps :
      (txn : ℕ) (t : Target) (predicate : Option PhysExpr)
      → Keeps P (seq_scan m sc std shown z txn t predicate)
  unfolding seq_scan
  seq_scan-Keeps txn t predicate = search (keeps_rules, scan_entries-Keeps)

  fetch-Keeps : (txn : ℕ) (t : Target) (rids : List ℕ) → Keeps P (fetch m sc std shown z txn t rids)
  unfolding fetch
  fetch-Keeps txn t [] = search keeps_rules
  fetch-Keeps txn t (rid ∷ rest) =
      Keeps-bind _ _ (Keeps-reads _)
        λ row. Keeps-bind _ _ (fetch-Keeps txn t rest) λ more. Keeps-lift _

  select-Keeps :
      (predicate : PhysExpr) (rows : List Tuple) → Keeps P (select m sc std shown z predicate rows)
  unfolding select
  select-Keeps predicate [] = search keeps_rules
  select-Keeps predicate (t ∷ ts) =
      Keeps-bind _ _ (Keeps-lift _)
        λ keep. Keeps-bind _ _ (select-Keeps predicate ts) λ rest. Keeps-lift _

  residual_rows-Keeps :
      (residual : Option PhysExpr) (rows : List Tuple)
      → Keeps P (residual_rows m sc std shown z residual rows)
  unfolding residual_rows
  residual_rows-Keeps none rows = search keeps_rules
  residual_rows-Keeps (some e) rows = select-Keeps e rows

  candidates-Keeps :
      (lookup : Option (ℕ → ℕ → List ℕ → Value → W → Result (List ℕ))) (txn : ℕ) (t : Target)
      (index : List ℕ) (position : ℕ) (key : Value)
      → Keeps P (candidates m sc std shown z lookup txn t index position key)
  unfolding candidates
  candidates-Keeps (some lookup) txn t index position key = search (keeps_rules, fetch-Keeps)
  candidates-Keeps none txn t index position key = seq_scan-Keeps txn t _

  index_scan-Keeps :
      (txn : ℕ) (t : Target) (index : List ℕ) (position : ℕ) (key : PhysExpr)
      (residual : Option PhysExpr)
      → Keeps P (index_scan m sc std shown z txn t index position key residual)
  unfolding index_scan
  index_scan-Keeps txn t index position key residual =
      search (keeps_rules, candidates-Keeps, residual_rows-Keeps)

  filter_rows-Keeps :
      (predicate : PhysExpr) (rows : List Tuple)
      → Keeps P (filter_rows m sc std shown z predicate rows)
  unfolding filter_rows
  filter_rows-Keeps predicate [] = search keeps_rules
  filter_rows-Keeps predicate (t ∷ ts) = Keeps-bind _ _ (tick-Keeps m sc z P clock) λ u.
      Keeps-bind _ _ (Keeps-lift _)
        λ keep. Keeps-bind _ _ (filter_rows-Keeps predicate ts) λ rest. Keeps-lift _

  admitted-Keeps : (rows : List Tuple) → Keeps P (admitted m sc std shown z rows)
  unfolding admitted
  admitted-Keeps rows = search keeps_rules

  through-Keeps :
      (rows : Run W (List Tuple)) (f : List Tuple → Result (List Tuple))
      → Keeps P rows
      → Keeps P (rows >>= λ ts. lift (f ts) >>= admitted m sc std shown z)
  through-Keeps rows f k = Keeps-bind _ _ k λ ts. Keeps-bind _ _ (Keeps-lift (f ts)) admitted-Keeps

  pub stream-Keeps : (txn : ℕ) (plan : PhysicalPlan) → Keeps P (stream m sc std shown z txn plan)
  unfolding stream not_a_source
  stream-Keeps txn (PhysicalPlan.seq_scan target predicate) =
      search (keeps_rules, admitted-Keeps, check_schema-Keeps, seq_scan-Keeps)
  stream-Keeps txn (PhysicalPlan.index_scan target index position key residual) =
      search (keeps_rules, admitted-Keeps, check_schema-Keeps, index_scan-Keeps)
  stream-Keeps txn (PhysicalPlan.filter input predicate) =
      Keeps-bind _ _ (stream-Keeps txn input)
        λ rows. Keeps-bind _ _ (filter_rows-Keeps predicate rows) admitted-Keeps
  stream-Keeps txn (PhysicalPlan.nested_loop_join left right j predicate output) =
      Keeps-bind _ _ (stream-Keeps txn left) λ outer.
        Keeps-bind _ _ (stream-Keeps txn right) λ inner.
          Keeps-bind _ _ (nested_loop_join-Keeps m sc z P clock outer inner j predicate)
            admitted-Keeps
  stream-Keeps txn (PhysicalPlan.aggregate input group_by calls output) =
      through-Keeps _ (λ rows. run m sc shown rows group_by calls) (stream-Keeps txn input)
  stream-Keeps txn (PhysicalPlan.projection input exprs output) =
      through-Keeps _ (project_rows m sc std shown z exprs) (stream-Keeps txn input)
  stream-Keeps txn (PhysicalPlan.sort input keys) =
      through-Keeps _ (λ rows. sort m sc std rows keys) (stream-Keeps txn input)
  stream-Keeps txn (PhysicalPlan.distinct input) =
      search (keeps_rules, admitted-Keeps, stream-Keeps txn input)
  stream-Keeps txn (PhysicalPlan.limit input count offset) =
      search (keeps_rules, admitted-Keeps, stream-Keeps txn input)
  stream-Keeps txn _ = search keeps_rules
