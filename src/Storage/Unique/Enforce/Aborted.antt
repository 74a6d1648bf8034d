-- ===== src/Storage/Unique/Enforce/Aborted.antt =====
-- The unique check of ferrite-storage/src/engine.rs before and after the transaction that deleted a row
-- aborts.
use ferrite.Prelude.{
  ℕ, ◌≡◌, refl, Bool, true, false, not, ◌&&◌, Option, none, List, [], ◌∷◌, ◌++◌, some, ◌==◌,
  Bool-cases, inl, inr,
}
use ferrite.Common.Error.{Result, ok, err, ◌>>=◌}
use ferrite.Common.Value.{Value, Row}
use ferrite.Common.Storage.{UniqueKey, extract}
use ferrite.Storage.Codec.Reader.{Bytes}
use ferrite.Storage.Codec.Rows.{decode_row}
use ferrite.Storage.Version.{Version, decode_chain}
use ferrite.Storage.Transactions.{Inner, abort}
use ferrite.Storage.Transactions.Commit.{IsSound}
use ferrite.Storage.Mvcc.{is_aborted, constraint_version}
use ferrite.Storage.Mvcc.Constraint.{constraint_version-abort}
use ferrite.Storage.Unique.KeyFilters.{KeyFilters, may_contain}
use ferrite.Storage.Unique.Enforce.Standing.{Stands, end, gone, stands}
use ferrite.Storage.Unique.Enforce.{
  Table, Visit, visit_row, visit_key, walk_for_constraints, is_excluded, matches, clash_visit,
  ensure_built, find_clash,
}

same_steps :
    {A : Type 0} (r : Result (Bool × A)) (f g : A → Result A)
    → ((a : A) → f a ≡ g a)
    → (r >>= λ x. elim x.0 [ true ↦ f x.1 | false ↦ ok x.1 ])
      ≡ (r >>= λ x. elim x.0 [ true ↦ g x.1 | false ↦ ok x.1 ])
same_steps (err e) f g h = refl
same_steps (ok (true, a)) f g h = h a
same_steps (ok (false, a)) f g h = refl

module _ (s : Inner) (txn key : ℕ) (payload : Bytes) (chain : List Version) (rest : Table)
    (decoded : decode_chain payload ≡ ok chain) where
  walk-gone :
      {A : Type 0} (visit : Visit A) (acc : A)
      → constraint_version s txn chain ≡ none
      → walk_for_constraints s txn ((key, payload) ∷ rest) visit acc
        ≡ walk_for_constraints s txn rest visit acc
  unfolding walk_for_constraints visit_key visit_row
  walk-gone visit acc hidden = rw decoded (rw hidden refl)

  walk-clash :
      (bytes : Bytes) (old : Row) (constraint : UniqueKey) (wanted : List Value)
      (exclude : Option ℕ)
      → constraint_version s txn chain ≡ some bytes
      → decode_row bytes ≡ ok old
      → is_excluded exclude key ≡ false
      → matches (extract constraint old) wanted ≡ true
      → walk_for_constraints s txn
          ((key, payload) ∷ rest)
          (clash_visit constraint wanted exclude)
          false
        ≡ ok true
  unfolding walk_for_constraints visit_key visit_row clash_visit
  walk-clash bytes old constraint wanted exclude version read other same =
      rw decoded (rw version (rw read (rw other (rw same refl))))

  -- The rows in front of it do not matter.
  walk-gone_after :
      {A : Type 0} (before : Table) (visit : Visit A) (acc : A)
      → constraint_version s txn chain ≡ none
      → walk_for_constraints s txn (before ++ (key, payload) ∷ rest) visit acc
        ≡ walk_for_constraints s txn (before ++ rest) visit acc
  unfolding walk_for_constraints
  walk-gone_after [] visit acc hidden = walk-gone visit acc hidden
  walk-gone_after ((k, p) ∷ before) visit acc hidden =
      same_steps (visit_key s txn visit acc k p) _ _ (λ a. walk-gone_after before visit a hidden)

walk-clash_after :
    (s : Inner) (txn : ℕ) (before found : Table) (rs : List (ℕ × Row)) (constraint : UniqueKey)
    (wanted : List Value) (exclude : Option ℕ)
    → Stands s txn before rs
    → walk_for_constraints s txn found (clash_visit constraint wanted exclude) false ≡ ok true
    → walk_for_constraints s txn (before ++ found) (clash_visit constraint wanted exclude) false
      ≡ ok true
unfolding walk_for_constraints visit_key visit_row clash_visit
walk-clash_after s txn _ found _ constraint wanted exclude end h = h
walk-clash_after s txn _ found _ constraint wanted exclude
      (gone {rest = rest} {rs = rs} chain e v before) h =
    rw e (rw v (walk-clash_after s txn rest found rs constraint wanted exclude before h))
walk-clash_after s txn _ found _ constraint wanted exclude
      (stands {key = key} {rest = rest} {rs = rs} chain bytes row e v d before) h =
    let more = walk-clash_after s txn rest found rs constraint wanted exclude before h in
    elim (Bool-cases (not (is_excluded exclude key) && matches (extract constraint row) wanted)) [
      | inl taken ↦ rw e (rw v (rw d (rw taken refl)))
      | inr clear ↦ rw e (rw v (rw d (rw clear more)))
    ]

-- In a sound state, let an open transaction have deleted the newest version of a row that another,
-- not aborted, created, and let the stored chain and row decode. The filter that the unique check
-- builds for the transaction is that of the table without the row. Once the transaction has
-- aborted, and where the rows in front of it decode, the search of every transaction for a key that
-- the row has finds a clash, unless it excludes the row, just where the filter does not prove the
-- key absent.
pub find_clash-abort :
    (hash_key : List Value → ℕ) (s s' : Inner) (t u table key : ℕ) (v : Version)
    (older : List Version) (payload : Bytes) (old : Row) (before rest : Table) (rs : List (ℕ × Row))
    (k : KeyFilters) (constraint : UniqueKey) (wanted : List Value) (exclude : Option ℕ)
    → IsSound s
    → abort s t ≡ ok s'
    → (v.xmax == t) ≡ true
    → (v.xmin == t) ≡ false
    → is_aborted s v.xmin ≡ false
    → decode_chain payload ≡ ok (v ∷ older)
    → decode_row v.bytes ≡ ok old
    → Stands s' u before rs
    → is_excluded exclude key ≡ false
    → matches (extract constraint old) wanted ≡ true
    → (ensure_built hash_key s t table (before ++ (key, payload) ∷ rest) k constraint
        ≡ ensure_built hash_key s t table (before ++ rest) k constraint)
      × (find_clash hash_key s' u table
            (before ++ (key, payload) ∷ rest)
            k
            constraint
            wanted
            exclude
          ≡ ok (may_contain k table constraint.columns (hash_key wanted)))
unfolding ensure_built find_clash
find_clash-abort hash_key s s' t u table key v older payload old before rest rs k constraint wanted
      exclude sound e deleted made created decoded read standing other same =
    let (hidden, back) = constraint_version-abort s s' t u v older sound e deleted made created in
    (
      rw (walk-gone_after s t key payload (v ∷ older) rest decoded before _ _ hidden) refl,
      elim (Bool-cases (may_contain k table constraint.columns (hash_key wanted))) [
        | inl maybe ↦ rw maybe (
            walk-clash_after s' u before _ rs constraint wanted exclude standing (
              walk-clash s' u key payload (v ∷ older) rest decoded v.bytes old constraint wanted
                exclude back read other same))
        | inr absent ↦ rw absent refl
      ],
    )
