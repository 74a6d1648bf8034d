-- ===== src/Storage/Mvcc.antt =====
-- ferrite-storage/src/engine.rs: the visibility, the pruning and the writing of row versions.
pub mod Pinned
pub mod Pruning
pub mod Open
pub mod Commit
pub mod Writes
pub mod Constraint
pub mod Examples
use ferrite.Prelude.{
  ℕ, Bool, true, false, not, ◌&&◌, ◌||◌, Option, none, some, List, [], ◌∷◌, min, ltb, leb, ◌==◌,
  if◌then◌else◌,
}
use ferrite.Common.Error.{row_not_found, serialization_failure, Result, ok, err}
use ferrite.Common.Txn.{Snapshot}
use ferrite.Storage.Codec.Reader.{Bytes}
use ferrite.Storage.Clog
use ferrite.Storage.Version.{Version, live, no_txn}
use ferrite.Storage.Transactions.{Active, Inner, contains, contains_key}

-- `binary_search` on the sorted list.
pub visible_txn : Inner → Snapshot → ℕ → Bool
visible_txn s snap xid =
    if xid == no_txn
    then false
    else if xid == snap.txn_id
    then true
    else if leb snap.xmin xid || contains snap.active_at_start xid
    then false
    else Clog.is_committed s.pager xid

pub is_aborted : Inner → ℕ → Bool
is_aborted s xid =
    if xid == no_txn || contains_key s.active xid
    then false
    else not (Clog.is_committed s.pager xid)

-- A version that its creator or its deleter hides from the snapshot.
pub hidden : Inner → Snapshot → Version → Bool
hidden s snap v =
    not (visible_txn s snap v.xmin) || (not (v.xmax == no_txn) && visible_txn s snap v.xmax)

pub visible_version : Inner → Snapshot → List Version → Option Bytes
unfolding hidden
visible_version s snap [] = none
visible_version s snap (v ∷ vs) =
    if hidden s snap v then visible_version s snap vs else some v.bytes

-- `active_at_start.first().unwrap_or(xmin).min(xmin)`
pub oldest : Snapshot → List ℕ → ℕ
oldest snap [] = snap.xmin
oldest snap (id ∷ ids) = min id snap.xmin

pub horizon_from : ℕ → Active → ℕ
horizon_from h [] = h
horizon_from h ((id, st) ∷ rest) =
    horizon_from (min h (oldest st.snapshot st.snapshot.active_at_start)) rest

pub prune_horizon : Inner → ℕ
unfolding horizon_from oldest
prune_horizon s = horizon_from s.pager.meta.next_txn_id s.active

-- The delete of an aborted transaction is undone.
pub revived : Inner → Version → Version
revived s v =
    if not (v.xmax == no_txn) && is_aborted s v.xmax then record v { xmax = no_txn } else v

-- Deleted before every snapshot.
pub is_dead : Inner → ℕ → Version → Bool
is_dead s horizon v =
    not (v.xmax == no_txn) && (ltb v.xmax horizon && Clog.is_committed s.pager v.xmax)

prune_at : Inner → ℕ → List Version → List Version
unfolding revived is_dead
prune_at s horizon [] = []
prune_at s horizon (v ∷ vs) =
    let rest = prune_at s horizon vs in
    if is_aborted s v.xmin
    then rest
    else if is_dead s horizon (revived s v)
    then rest
    else revived s v ∷ rest

pub prune : Inner → List Version → List Version
unfolding prune_at
prune s chain = prune_at s (prune_horizon s) chain

-- The version that a unique constraint has to reckon with.
pub constraint_version : Inner → ℕ → List Version → Option Bytes
constraint_version s txn [] = none
constraint_version s txn (v ∷ vs) =
    if is_aborted s v.xmin
    then constraint_version s txn vs
    else if v.xmax == no_txn || is_aborted s v.xmax
    then some v.bytes
    else if v.xmax == txn || not (contains_key s.active v.xmax)
    then none
    else some v.bytes

-- `Ok(0)` is the index of the newest version.
pub writable_version : Inner → Snapshot → List Version → Result ℕ
writable_version s snap [] = err row_not_found
writable_version s snap (newest ∷ older) =
    if not (visible_txn s snap newest.xmin)
    then err serialization_failure
    else if newest.xmax == no_txn
    then ok 0
    else if newest.xmax == snap.txn_id
    then err row_not_found
    else if visible_txn s snap newest.xmax
    then err row_not_found
    else if not (is_aborted s newest.xmax)
    then err serialization_failure
    else ok 0

-- The write of `update_unique` on the pruned chain that passed the check.
pub supersede : ℕ → Bytes → List Version → List Version
supersede txn bytes [] = []
supersede txn bytes (newest ∷ older) =
    if newest.xmin == txn
    then record newest { bytes = bytes } ∷ older
    else live txn bytes ∷ record newest { xmax = txn } ∷ older

pub mark_deleted : ℕ → List Version → List Version
mark_deleted txn [] = []
mark_deleted txn (newest ∷ older) = record newest { xmax = txn } ∷ older

checked : Result ℕ → List Version → Result (List Version)
checked (ok index) chain = ok chain
checked (err e) chain = err e

-- What `update_unique` makes of a row's chain.
pub update_chain : Inner → Snapshot → ℕ → Bytes → List Version → Result (List Version)
unfolding supersede checked
update_chain s snap txn bytes chain =
    let pruned = prune s chain in
    checked (writable_version s snap pruned) (supersede txn bytes pruned)

-- What `delete` makes of a row's chain.
pub delete_chain : Inner → Snapshot → ℕ → List Version → Result (List Version)
unfolding mark_deleted checked
delete_chain s snap txn chain =
    let pruned = prune s chain in checked (writable_version s snap pruned) (mark_deleted txn pruned)

-- What `insert_unique` stores under a new row id.
abbrev pub insert_chain : ℕ → Bytes → List Version
insert_chain txn bytes = live txn bytes ∷ []
