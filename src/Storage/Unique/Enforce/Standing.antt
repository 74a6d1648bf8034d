-- ===== src/Storage/Unique/Enforce/Standing.antt =====
-- What the walk over a table of ferrite-storage/src/engine.rs folds over: the rows that stand for a
-- unique constraint.
use ferrite.Prelude.{
  ℕ, ◌≡◌, refl, Bool, true, false, not, ◌&&◌, ◌||◌, Option, none, some, List, [], ◌∷◌,
  if◌then◌else◌, arith,
}
use ferrite.Common.Error.{Result, ok}
use ferrite.Common.Value.{Value, Row}
use ferrite.Common.Storage.{UniqueKey, extract}
use ferrite.Storage.Codec.Reader.{Bytes}
use ferrite.Storage.Codec.Rows.{decode_row}
use ferrite.Storage.Version.{Version, decode_chain}
use ferrite.Storage.Transactions.{Inner}
use ferrite.Storage.Mvcc.{constraint_version}
use ferrite.Storage.Unique.Enforce.{
  Table, Visit, visit_row, visit_key, walk_for_constraints, is_excluded, matches, clash_visit,
}

-- The rows of a table that stand for a unique constraint, where all of them can be decoded.
pub data Stands (s : Inner) (txn : ℕ) : Table → List (ℕ × Row) → Type 0 where
  end : Stands s txn [] []
  gone :
      {key : ℕ} {payload : Bytes} {rest : Table} {rs : List (ℕ × Row)} (chain : List Version)
      → decode_chain payload ≡ ok chain
      → constraint_version s txn chain ≡ none
      → Stands s txn rest rs
      → Stands s txn ((key, payload) ∷ rest) rs
  stands :
      {key : ℕ} {payload : Bytes} {rest : Table} {rs : List (ℕ × Row)} (chain : List Version)
      (bytes : Bytes) (row : Row)
      → decode_chain payload ≡ ok chain
      → constraint_version s txn chain ≡ some bytes
      → decode_row bytes ≡ ok row
      → Stands s txn rest rs
      → Stands s txn ((key, payload) ∷ rest) ((key, row) ∷ rs)

unfoldable pub fold_until : {A : Type 0} → Visit A → List (ℕ × Row) → A → A
fold_until visit [] acc = acc
fold_until visit ((key, row) ∷ rs) acc =
    let r = visit acc key row in let more = fold_until visit rs r.1 in if r.0 then more else r.1

continues :
    {A : Type 0} (b : Bool) (w : Result A) (x y : A)
    → w ≡ ok x
    → (elim b as (λ z. Result A) [ true ↦ w | false ↦ ok y ]) ≡ ok (if b then x else y)
continues true w x y h = h
continues false w x y h = refl

pub walk-Stands :
    {A : Type 0} (s : Inner) (txn : ℕ) (rows : Table) (rs : List (ℕ × Row)) (visit : Visit A)
    (acc : A)
    → Stands s txn rows rs
    → walk_for_constraints s txn rows visit acc ≡ ok (fold_until visit rs acc)
unfolding walk_for_constraints fold_until visit_key visit_row
walk-Stands s txn _ _ visit acc end = refl
walk-Stands s txn _ _ visit acc (gone {rest = rest} {rs = rs} chain e v h) =
    rw e (rw v (walk-Stands s txn rest rs visit acc h))
walk-Stands s txn _ _ visit acc
      (stands {key = key} {rest = rest} {rs = rs} chain bytes row e v d h) =
    let r = visit acc key row in
    let more = walk-Stands s txn rest rs visit r.1 h in
    rw e (
      rw v (
        rw d (
          continues r.0 (walk_for_constraints s txn rest visit r.1) (fold_until visit rs r.1) r.1
            more)))

-- A row other than the excluded one has the wanted key.
unfoldable pub clashes : UniqueKey → List Value → Option ℕ → List (ℕ × Row) → Bool
clashes constraint wanted exclude [] = false
clashes constraint wanted exclude ((rid, row) ∷ rs) =
    (not (is_excluded exclude rid) && matches (extract constraint row) wanted)
    || clashes constraint wanted exclude rs

pub fold_until-clash_visit :
    (constraint : UniqueKey) (wanted : List Value) (exclude : Option ℕ) (rs : List (ℕ × Row))
    → fold_until (clash_visit constraint wanted exclude) rs false
      ≡ clashes constraint wanted exclude rs
unfolding fold_until clash_visit clashes
fold_until-clash_visit constraint wanted exclude [] = refl
fold_until-clash_visit constraint wanted exclude ((rid, row) ∷ rs) =
    let goes_on = fold_until-clash_visit constraint wanted exclude rs in ground (arith, goes_on)
