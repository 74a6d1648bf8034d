-- ===== src/Storage/Mvcc/Commit.antt =====
-- What the end of a transaction of ferrite-storage/src/engine.rs changes for the readers.
use ferrite.Prelude.{ℕ, ◌<◌, ◌≡◌, refl, sym, ap, ◌∙◌, true, false, List, [], ◌∷◌, arith, ◌==◌}
use ferrite.Common.Error.{ok}
use ferrite.Common.Txn.{Snapshot}
use ferrite.Storage.Clog
use ferrite.Storage.Clog.Marking.{Marks, mark_committed-Marks}
use ferrite.Storage.Version.{Version}
use ferrite.Storage.Transactions.{Inner, contains_key, others, take_snapshot, commit, abort}
use ferrite.Storage.Transactions.Table.{contains-others, contains_key-remove}
use ferrite.Storage.Transactions.Ordering.{contains-sort}
use ferrite.Storage.Transactions.Commit.{IsSound, committed_state, commit-eq-ok}
use ferrite.Storage.Mvcc.{visible_txn, is_aborted, visible_version}
use ferrite.Storage.Mvcc.Pinned.{IsPinned}

-- A version list reads the same where the same transactions are visible.
visible_version-agree :
    (s s' : Inner) (snap : Snapshot)
    → ((x : ℕ) → visible_txn s' snap x ≡ visible_txn s snap x)
    → (chain : List Version) → visible_version s' snap chain ≡ visible_version s snap chain
unfolding visible_version
visible_version-agree s s' snap agree [] = refl
visible_version-agree s s' snap agree (v ∷ vs) =
    ground (arith, agree v.xmin, agree v.xmax, visible_version-agree s s' snap agree vs)

visible_txn-committed :
    (s : Inner) (snap : Snapshot) (t x : ℕ)
    → IsPinned s snap
    → Marks s.pager (Clog.mark_committed s.pager t) t
    → contains_key s.active t ≡ true
    → (t == snap.txn_id) ≡ false
    → visible_txn (committed_state s t) snap x ≡ visible_txn s snap x
unfolding visible_txn
visible_txn-committed s snap t x pinned m is_open other =
    ground (arith, m.committed x, pinned.unseen t is_open)

-- In a sound state, a commit that succeeds changes nothing that another open transaction reads
-- under its pinned snapshot: every version list reads the same before and after it, so reads are
-- repeatable.
pub commit_stable :
    (s s' : Inner) (snap : Snapshot) (t : ℕ) (chain : List Version)
    → IsSound s
    → IsPinned s snap
    → (t == snap.txn_id) ≡ false
    → commit s t ≡ ok s'
    → visible_version s' snap chain ≡ visible_version s snap chain
commit_stable s s' snap t chain h pinned other e =
    let (is_open, same) = commit-eq-ok s s' t e in
    let m = mark_committed-Marks s.pager t h.pages in
    ap (λ (z : Inner). visible_version z snap chain) (sym same)
    ∙ visible_version-agree s (committed_state s t) snap
        (λ x. visible_txn-committed s snap t x pinned m is_open other) chain

visible_txn-taken :
    (s : Inner) (t u : ℕ)
    → Marks s.pager (Clog.mark_committed s.pager t) t
    → (0 < t) × (t < s.pager.meta.next_txn_id)
    → visible_txn (committed_state s t) (take_snapshot (committed_state s t) u) t ≡ true
unfolding visible_txn take_snapshot
visible_txn-taken s t u m bounds =
    let a = (committed_state s t).active in
    ground (
      arith,
      m.committed t,
      m.next_txn_id,
      bounds,
      contains-sort (others a u) t,
      contains-others a u t,
      contains_key-remove s.active t t,
    )

-- In a sound state, after a commit that succeeds every snapshot taken then sees the transaction.
pub commit_visible :
    (s s' : Inner) (t u : ℕ)
    → IsSound s
    → commit s t ≡ ok s'
    → visible_txn s' (take_snapshot s' u) t ≡ true
commit_visible s s' t u h e =
    let (is_open, same) = commit-eq-ok s s' t e in
    ap (λ (z : Inner). visible_txn z (take_snapshot z u) t) (sym same)
    ∙ visible_txn-taken s t u (mark_committed-Marks s.pager t h.pages)
        (h.transactions.issued t is_open)

-- In a sound state, after an abort that succeeds no snapshot of another transaction sees the
-- aborted one, and it counts as aborted, so that its versions are pruned.
pub abort_invisible :
    (s s' : Inner) (t : ℕ) (snap : Snapshot)
    → IsSound s
    → abort s t ≡ ok s'
    → (t == snap.txn_id) ≡ false
    → (visible_txn s' snap t ≡ false) × (is_aborted s' t ≡ true)
unfolding abort visible_txn is_aborted
abort_invisible s s' t snap h e other =
    ground (
      arith,
      h.transactions.uncommitted t,
      h.transactions.issued t,
      contains_key-remove s.active t t,
    )
