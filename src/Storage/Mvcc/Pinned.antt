-- ===== src/Storage/Mvcc/Pinned.antt =====
-- The snapshot that an open transaction of ferrite-storage/src/engine.rs reads under.
use ferrite.Prelude.{ℕ, ◌<◌, ◌≡◌, true, false, ◌||◌, arith, leb, ◌==◌}
use ferrite.Common.Txn.{Snapshot}
use ferrite.Storage.Clog
use ferrite.Storage.Version.{Version}
use ferrite.Storage.Transactions.{Inner, contains, contains_key}
use ferrite.Storage.Mvcc.{visible_txn, is_aborted, hidden, revived, is_dead, prune_horizon}

-- Its owner is open and has not committed, no other open transaction is visible to it, and it sees the outcome of every
-- transaction below the horizon.
pub record IsPinned (s : Inner) (snap : Snapshot) : Type 0 where
  pub own : contains_key s.active snap.txn_id ≡ true
  pub positive : 0 < snap.txn_id
  pub uncommitted : Clog.is_committed s.pager snap.txn_id ≡ false
  pub unseen :
      (u : ℕ)
      → contains_key s.active u ≡ true
      → ((u == snap.txn_id) || (leb snap.xmin u || contains snap.active_at_start u)) ≡ true
  pub settled :
      (u : ℕ) → u < prune_horizon s → (leb snap.xmin u || contains snap.active_at_start u) ≡ false

module _ {s : Inner} {snap : Snapshot} (pinned : IsPinned s snap) where
  -- What an aborted transaction wrote is invisible.
  pub aborted_invisible : (x : ℕ) → is_aborted s x ≡ true → visible_txn s snap x ≡ false
  unfolding is_aborted visible_txn
  aborted_invisible x h = ground (arith, pinned.own)

  -- A transaction sees its own writes.
  pub own_visible : visible_txn s snap snap.txn_id ≡ true
  unfolding visible_txn
  own_visible = ground (arith, pinned.positive)

  -- A visible transaction did not abort.
  pub visible_kept : (x : ℕ) → visible_txn s snap x ≡ true → is_aborted s x ≡ false
  unfolding visible_txn is_aborted
  visible_kept x h = ground (arith, pinned.own)

  pub own_kept : is_aborted s snap.txn_id ≡ false
  unfolding is_aborted
  own_kept = ground (arith, pinned.own)

  -- Nor is what another open transaction wrote visible.
  pub open_invisible :
      (u : ℕ)
      → contains_key s.active u ≡ true
      → (u == snap.txn_id) ≡ false
      → visible_txn s snap u ≡ false
  unfolding visible_txn
  open_invisible u is_open other = ground (arith, pinned.unseen u is_open)

  pub hidden_aborted : (v : Version) → is_aborted s v.xmin ≡ true → hidden s snap v ≡ true
  unfolding hidden
  hidden_aborted v h = ground (arith, aborted_invisible v.xmin h)

  pub hidden-revived : (v : Version) → hidden s snap (revived s v) ≡ hidden s snap v
  unfolding hidden revived
  hidden-revived v = ground (arith, aborted_invisible v.xmax)

  pub hidden_dead : (v : Version) → is_dead s (prune_horizon s) v ≡ true → hidden s snap v ≡ true
  unfolding hidden is_dead visible_txn
  hidden_dead v h = ground (arith, pinned.settled v.xmax)
