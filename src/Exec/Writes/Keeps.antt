-- ===== src/Exec/Writes/Keeps.antt =====
-- What reaches the storage by the inserts, updates and deletes of ferrite-exec/src/executor.rs.
use ferrite.Prelude.{ℕ, ◌+◌, ◌≡◌, subst, Option, none, some, List, [], ◌∷◌}
use ferrite.Common.Error.{Result, ok}
use ferrite.Common.Value.{Value, Row}
use ferrite.Common.Schema.{Schema}
use ferrite.Common.Storage.{UniqueKey}
use ferrite.Planner.Expr.{PhysExpr}
use ferrite.Planner.Physical.{PhysConflictAction, nothing, update, PhysOnConflict, Target}
use ferrite.Exec.Compare.{Machine}
use ferrite.Exec.Eval.{Scalars}
use ferrite.Exec.Conform.{conform_row}
use ferrite.Exec.Conform.Accepted.{Conforms, conform_row-Conforms}
use ferrite.Exec.Session.{Tuple, Engines, Session}
use ferrite.Exec.Session.Keeps.{
  Keeps, Keeps-lift, Keeps-reads, Keeps-writes, Keeps-after_lift, Keeps-bind, Keeps-tick,
  Keeps-when,
}
use ferrite.Exec.Writes.{
  assign, find_key, conflicting_row, write_update, update_row, selected, resolve_conflict,
  conflict_of, insert_or_resolve, insert_row, insert_given, insert_each, run_insert, identified,
  update_each, delete_each,
}

-- The engines keep an invariant under their clock, under deletes, and under writes of rows that
-- conform to the schema of their table.
pub record Guards {W : Type 0} (e : Engines W) (schema_of : ℕ → Schema) (P : W → Type 0)
    : Type 0 where
  pub clock : (w : W) → P w → P (e.now w).1
  pub inserted :
      (txn table : ℕ) (row : Row) (unique : List UniqueKey) (w : W)
      → Conforms (schema_of table) row
      → P w
      → P (e.insert_unique txn table row unique w).1
  pub updated :
      (txn table rid : ℕ) (row : Row) (unique : List UniqueKey) (w : W)
      → Conforms (schema_of table) row
      → P w
      → P (e.update_unique txn table rid row unique w).1
  pub deleted : (txn table rid : ℕ) (w : W) → P w → P (e.delete txn table rid w).1

module _ (m : Machine) (sc : Scalars) {W : Type 0} (z : Session W) (schema_of : ℕ → Schema)
    (P : W → Type 0) (g : Guards z.engines schema_of P) (t : Target)
    (planned : t.schema ≡ schema_of t.table) where
  written :
      (row given : Row)
      → conform_row m t.schema given t.table_name ≡ ok row
      → Conforms (schema_of t.table) row
  written row given h =
      subst (λ s. Conforms s row) planned (conform_row-Conforms m t.schema row given t.table_name h)

  assign-Keeps :
      (assignments : List (ℕ × PhysExpr)) (before candidate : Row)
      → Keeps P (assign m sc z assignments before candidate)
  unfolding assign
  assign-Keeps [] before candidate = Keeps-lift _
  assign-Keeps ((position, e) ∷ rest) before candidate =
      Keeps-bind _ _ (Keeps-lift _) λ v. Keeps-bind _ _ (Keeps-lift _) (assign-Keeps rest before)

  find_key-Keeps :
      (schema : Schema) (target : List ℕ) (wanted : List Value) (entries : List (Result (ℕ × Row)))
      → Keeps P (find_key m sc z schema target wanted entries)
  unfolding find_key
  find_key-Keeps schema target wanted [] = Keeps-lift _
  find_key-Keeps schema target wanted (entry ∷ rest) = Keeps-bind _ _ (Keeps-tick z g.clock) λ u.
      Keeps-bind _ _ (Keeps-lift entry)
        λ found. Keeps-when _ _ _ (Keeps-lift _) (find_key-Keeps schema target wanted rest)

  conflicting_row-Keeps :
      (txn : ℕ) (target : List ℕ) (row : Row) → Keeps P (conflicting_row m sc z txn t target row)
  unfolding conflicting_row
  conflicting_row-Keeps txn target row =
      Keeps-when _ _ _ (Keeps-lift _)
        (Keeps-bind _ _ (Keeps-reads _) (find_key-Keeps t.schema target _))

  write_update-Keeps :
      (txn : ℕ) (unique : List UniqueKey) (rid : ℕ) (o : Option Row)
      → Keeps P (write_update m sc z txn t unique rid o)
  unfolding write_update
  write_update-Keeps txn unique rid none = Keeps-lift _
  write_update-Keeps txn unique rid (some given) = Keeps-after_lift _ _ λ row e.
      Keeps-bind _ _
        (Keeps-writes _ (λ w. g.updated txn t.table rid row unique w (written row given e)))
        λ done. Keeps-lift _

  update_row-Keeps :
      (txn : ℕ) (unique : List UniqueKey) (rid : ℕ) (existing candidate : Row)
      → Keeps P (update_row m sc z txn t unique rid existing candidate)
  unfolding update_row
  update_row-Keeps txn unique rid existing candidate =
      Keeps-bind _ _ (Keeps-lift _) λ decision. write_update-Keeps txn unique rid _

  selected-Keeps : (o : Option PhysExpr) (row : Row) → Keeps P (selected m sc z o row)
  unfolding selected
  selected-Keeps none row = Keeps-lift _
  selected-Keeps (some e) row = Keeps-lift _

  resolve_conflict-Keeps :
      (txn : ℕ) (action : PhysConflictAction) (rid : ℕ) (existing excluded : Row)
      (unique : List UniqueKey)
      → Keeps P (resolve_conflict m sc z txn t action rid existing excluded unique)
  unfolding resolve_conflict
  resolve_conflict-Keeps txn nothing rid existing excluded unique = Keeps-lift _
  resolve_conflict-Keeps txn (update assignments o) rid existing excluded unique =
      Keeps-bind _ _ (selected-Keeps o _) λ chosen.
        Keeps-when chosen _ _
          (Keeps-bind _ _ (assign-Keeps assignments _ existing)
            (update_row-Keeps txn unique rid existing))
          (Keeps-lift _)

  conflict_of-Keeps :
      (txn : ℕ) (o : Option PhysOnConflict) (row : Row) → Keeps P (conflict_of m sc z txn t o row)
  unfolding conflict_of
  conflict_of-Keeps txn none row = Keeps-lift _
  conflict_of-Keeps txn (some clause) row = conflicting_row-Keeps txn clause.target row

  insert_or_resolve-Keeps :
      (txn : ℕ) (action : PhysConflictAction) (unique : List UniqueKey) (row : Row)
      (conflict : Option (ℕ × Row))
      → Conforms (schema_of t.table) row
      → Keeps P (insert_or_resolve m sc z txn t action unique row conflict)
  unfolding insert_or_resolve
  insert_or_resolve-Keeps txn action unique row (some (rid, existing)) fits =
      resolve_conflict-Keeps txn action rid existing row unique
  insert_or_resolve-Keeps txn action unique row none fits =
      Keeps-bind _ _ (Keeps-writes _ (λ w. g.inserted txn t.table row unique w fits))
        λ rid. Keeps-lift _

  insert_given-Keeps :
      (txn : ℕ) (o : Option PhysOnConflict) (unique : List UniqueKey) (given : Option Row)
      → Keeps P (insert_given m sc z txn t o unique given)
  unfolding insert_given insert_row
  insert_given-Keeps txn o unique none = Keeps-lift _
  insert_given-Keeps txn o unique (some given) = Keeps-after_lift _ _ λ row e.
      Keeps-bind _ _ (conflict_of-Keeps txn o row)
        λ conflict. insert_or_resolve-Keeps txn _ unique row conflict (written row given e)

  insert_each-Keeps :
      (txn : ℕ) (o : Option PhysOnConflict) (unique : List UniqueKey) (rows : List (List PhysExpr))
      (n : ℕ)
      → Keeps P (insert_each m sc z txn t o unique rows n)
  unfolding insert_each
  insert_each-Keeps txn o unique [] n = Keeps-lift _
  insert_each-Keeps txn o unique (exprs ∷ rest) n = Keeps-bind _ _ (Keeps-tick z g.clock) λ u.
      Keeps-bind _ _ (Keeps-lift _) λ values. Keeps-bind _ _ (Keeps-lift _) λ decision.
        Keeps-bind _ _ (insert_given-Keeps txn o unique _)
          λ more. insert_each-Keeps txn o unique rest (n + more)

  pub run_insert-Keeps :
      (txn : ℕ) (rows : List (List PhysExpr)) (o : Option PhysOnConflict) (unique : List UniqueKey)
      → Keeps P (run_insert m sc z txn t rows o unique)
  unfolding run_insert
  run_insert-Keeps txn rows o unique = insert_each-Keeps txn o unique rows 0

  identified-Keeps : (rid : Option ℕ) → Keeps P (identified m sc z rid)
  unfolding identified
  identified-Keeps none = Keeps-lift _
  identified-Keeps (some rid) = Keeps-lift _

  pub update_each-Keeps :
      (txn : ℕ) (assignments : List (ℕ × PhysExpr)) (unique : List UniqueKey) (tuples : List Tuple)
      (n : ℕ)
      → Keeps P (update_each m sc z txn t assignments unique tuples n)
  unfolding update_each
  update_each-Keeps txn assignments unique [] n = Keeps-lift _
  update_each-Keeps txn assignments unique (tuple ∷ rest) n =
      Keeps-bind _ _ (Keeps-tick z g.clock) λ u. Keeps-bind _ _ (identified-Keeps tuple.rid) λ rid.
        Keeps-bind _ _ (assign-Keeps assignments tuple.row tuple.row) λ candidate.
          Keeps-bind _ _ (update_row-Keeps txn unique rid tuple.row candidate)
            λ more. update_each-Keeps txn assignments unique rest (n + more)

  pub delete_each-Keeps :
      (txn : ℕ) (tuples : List Tuple) (n : ℕ) → Keeps P (delete_each m sc z txn t tuples n)
  unfolding delete_each
  delete_each-Keeps txn [] n = Keeps-lift _
  delete_each-Keeps txn (tuple ∷ rest) n = Keeps-bind _ _ (Keeps-tick z g.clock) λ u.
      Keeps-bind _ _ (identified-Keeps tuple.rid) λ rid. Keeps-bind _ _ (Keeps-lift _) λ decision.
        Keeps-bind _ _ (Keeps-lift _) λ go.
          Keeps-bind _ _
            (Keeps-when go _ _
              (Keeps-bind _ _ (Keeps-writes _ (g.deleted txn t.table rid)) λ gone. Keeps-lift _)
              (Keeps-lift _))
            λ more. delete_each-Keeps txn rest (n + more)
