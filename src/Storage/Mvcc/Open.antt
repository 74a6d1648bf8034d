-- ===== src/Storage/Mvcc/Open.antt =====
-- Every open transaction of ferrite-storage/src/engine.rs reads under a pinned snapshot.
use ferrite.Prelude.{inl, inr, ℕ, ◌≤◌, ◌<◌, ◌≡◌, false, ◌||◌, some, List, [], ◌∷◌, arith, min, leb}
use ferrite.Common.Txn.{Snapshot}
use ferrite.Storage.Transactions.{TxnState, Active, Inner, contains, lookup}
use ferrite.Storage.Transactions.Table.{contains_key-lookup}
use ferrite.Storage.Transactions.Ordering.{IsSorted, contains_below}
use ferrite.Storage.Transactions.Invariant.{lookup-cons, IsInner}
use ferrite.Storage.Mvcc.{oldest, horizon_from, prune_horizon}
use ferrite.Storage.Mvcc.Pinned.{IsPinned}

horizon_from-le : (h : ℕ) (a : Active) → horizon_from h a ≤ h
unfolding horizon_from
horizon_from-le h [] = omega arith
horizon_from-le h ((id, st) ∷ rest) =
    omega (arith, horizon_from-le (min h (oldest st.snapshot st.snapshot.active_at_start)) rest)

-- The horizon is not above the oldest transaction of any open snapshot.
horizon_from-le-oldest :
    (h : ℕ) (a : Active) (t : ℕ) (st : TxnState)
    → lookup a t ≡ some st
    → horizon_from h a ≤ oldest st.snapshot st.snapshot.active_at_start
unfolding horizon_from lookup
horizon_from-le-oldest h [] t st e = cc
horizon_from-le-oldest h ((id, x) ∷ rest) t st e =
    let ids = x.snapshot.active_at_start in
    let below = horizon_from-le (min h (oldest x.snapshot ids)) rest in
    elim (lookup-cons rest id t x st e) [
      | inl (same, new) ↦ rw new (omega (arith, below))
      | inr old ↦ horizon_from-le-oldest (min h (oldest x.snapshot ids)) rest t st old
    ]

-- A snapshot sees the outcome of all transactions below its oldest one.
below_oldest :
    (snap : Snapshot) (ids : List ℕ) (u : ℕ)
    → IsSorted ids
    → u < oldest snap ids
    → (leb snap.xmin u || contains ids u) ≡ false
unfolding oldest contains
below_oldest snap [] u h lt = ground arith
below_oldest snap (id ∷ ids) u (h, _) lt = ground (arith, contains_below id u ids)

-- In a state whose transaction table is well formed, the snapshot that an open transaction holds is
-- pinned: its own id is open and uncommitted, it sees no other open transaction, and every outcome
-- below the prune horizon is settled for it.
pub lookup-IsPinned :
    (s : Inner) (t : ℕ) (st : TxnState)
    → IsInner s
    → lookup s.active t ≡ some st
    → IsPinned s st.snapshot
unfolding prune_horizon
lookup-IsPinned s t st h e =
    let snap = h.pinned t st e in
    let is_open = contains_key-lookup s.active t st e in
    record {
      own = rw snap.keyed is_open;
      positive = rw snap.keyed (h.issued t is_open).0;
      uncommitted = rw snap.keyed (h.uncommitted t is_open);
      unseen = λ u other. rw snap.keyed (snap.unseen u other);
      settled = λ u lt.
          below_oldest st.snapshot st.snapshot.active_at_start u snap.sorted
            (omega (arith, lt, horizon_from-le-oldest s.pager.meta.next_txn_id s.active t st e));
    }
