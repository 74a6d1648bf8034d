-- ===== src/Storage/Transactions.antt =====
-- ferrite-storage/src/engine.rs: the open transactions, and how they begin and end.
pub mod Table
pub mod Ordering
pub mod Invariant
pub mod Commit
pub mod Examples
use ferrite.Prelude.{
  ℕ, ◌+◌, Bool, true, false, ◌||◌, Option, none, some, List, [], ◌∷◌, leb, ◌==◌, if◌then◌else◌,
}
use ferrite.Common.Error.{txn_not_active, Result, ok, err}
use ferrite.Common.Txn.{Snapshot}
use ferrite.Storage.Page.{no_page}
use ferrite.Storage.Pager.{Pager}
use ferrite.Storage.Btree.{create}
use ferrite.Storage.Clog

-- The instant at which a transaction started is not modelled: it only feeds a metric.
pub record TxnState : Type 0 where
  pub snapshot : Snapshot
  pub dropped : List ℕ

-- `open_with` of ferrite-storage/src/engine.rs gives a database the root of its catalog.
unfoldable pub with_catalog : Pager → Pager
unfolding create
with_catalog p =
    let (root, q) = create p in
    if p.meta.catalog_root == no_page
    then record q { meta = record q.meta { catalog_root = root } }
    else p

-- The `HashMap` of open transactions, as an association list.
abbrev pub Active : Type 0
Active = List (ℕ × TxnState)

-- The key filters are a state of their own, in Storage/Unique.
pub record Inner : Type 0 where
  pub pager : Pager
  pub active : Active

unfoldable pub contains : List ℕ → ℕ → Bool
contains [] a = false
contains (x ∷ xs) a = x == a || contains xs a

unfoldable pub lookup : Active → ℕ → Option TxnState
lookup [] txn = none
lookup ((id, st) ∷ rest) txn = if id == txn then some st else lookup rest txn

unfoldable pub contains_key : Active → ℕ → Bool
contains_key [] txn = false
contains_key ((id, st) ∷ rest) txn = id == txn || contains_key rest txn

pub remove : Active → ℕ → Active
remove [] txn = []
remove ((id, st) ∷ rest) txn = let r = remove rest txn in if id == txn then r else (id, st) ∷ r

-- `sort_unstable`
insert_sorted : ℕ → List ℕ → List ℕ
insert_sorted x [] = x ∷ []
insert_sorted x (y ∷ ys) = if leb x y then x ∷ y ∷ ys else y ∷ insert_sorted x ys

pub sort : List ℕ → List ℕ
unfolding insert_sorted
sort [] = []
sort (x ∷ xs) = insert_sorted x (sort xs)

-- `keys().filter(|id| *id != txn)`
pub others : Active → ℕ → List ℕ
others [] txn = []
others ((id, st) ∷ rest) txn = let r = others rest txn in if id == txn then r else id ∷ r

unfoldable pub take_snapshot : Inner → ℕ → Snapshot
take_snapshot s txn = record {
  txn_id = txn;
  xmin = s.pager.meta.next_txn_id;
  active_at_start = sort (others s.active txn);
}

or_not_active : ℕ → Option TxnState → Result Snapshot
or_not_active txn none = err (txn_not_active txn)
or_not_active txn (some st) = ok st.snapshot

abbrev pub snapshot_of : Inner → ℕ → Result Snapshot
unfolding or_not_active
snapshot_of s txn = or_not_active txn (lookup s.active txn)

-- The transaction is given the next id, and a snapshot before it is listed as open.
unfoldable pub begin : Inner → ℕ × Inner
begin s =
    let txn = s.pager.meta.next_txn_id in
    let q = record s.pager { meta = record s.pager.meta { next_txn_id = txn + 1 } } in
    let t = record s { pager = q } in
    let st : TxnState = record { snapshot = take_snapshot t txn; dropped = [] } in
    (txn, record t { active = (txn, st) ∷ s.active })

-- The commit bit and the end of the transaction, without the journal and the reclaimed pages.
unfoldable pub commit : Inner → ℕ → Result Inner
commit s txn =
    if contains_key s.active txn
    then ok (record s { pager = Clog.mark_committed s.pager txn; active = remove s.active txn })
    else err (txn_not_active txn)

unfoldable pub abort : Inner → ℕ → Result Inner
abort s txn =
    if contains_key s.active txn
    then ok (record s { active = remove s.active txn })
    else err (txn_not_active txn)

pub set_snapshot : Active → ℕ → Snapshot → Active
set_snapshot [] txn snap = []
set_snapshot ((id, st) ∷ rest) txn snap =
    let r = set_snapshot rest txn snap in
    if id == txn then (id, record st { snapshot = snap }) ∷ rest else (id, st) ∷ r

pub snapshot : Inner → ℕ → Result (Snapshot × Inner)
unfolding set_snapshot
snapshot s txn =
    let snap = take_snapshot s txn in
    if contains_key s.active txn
    then ok (snap, record s { active = set_snapshot s.active txn snap })
    else err (txn_not_active txn)
