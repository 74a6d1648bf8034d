-- ===== src/Storage/Mvcc/Pruning.antt =====
-- `prune` of ferrite-storage/src/engine.rs changes what no open transaction reads.
use ferrite.Prelude.{◌≡◌, refl, List, [], ◌∷◌, arith}
use ferrite.Common.Txn.{Snapshot}
use ferrite.Storage.Version.{Version}
use ferrite.Storage.Transactions.{Inner}
use ferrite.Storage.Mvcc.{visible_version, revived, prune_horizon, prune_at, prune}
use ferrite.Storage.Mvcc.Pinned.{IsPinned, hidden_aborted, hidden-revived, hidden_dead}

bytes-revived : (s : Inner) (v : Version) → (revived s v).bytes ≡ v.bytes
unfolding revived
bytes-revived s v = ground arith

module _ {s : Inner} {snap : Snapshot} (pinned : IsPinned s snap) where
  visible_version-prune_at :
      (chain : List Version)
      → visible_version s snap (prune_at s (prune_horizon s) chain) ≡ visible_version s snap chain
  unfolding visible_version prune_at
  visible_version-prune_at [] = refl
  visible_version-prune_at (v ∷ vs) = ground (
    arith,
    visible_version-prune_at vs,
    hidden_aborted pinned v,
    hidden-revived pinned v,
    hidden_dead pinned (revived s v),
    bytes-revived s v,
  )

  -- Under the pinned snapshot of an open transaction, a row reads the same before and after its
  -- chain is pruned.
  pub visible_version-prune :
      (chain : List Version) → visible_version s snap (prune s chain) ≡ visible_version s snap chain
  unfolding prune
  visible_version-prune chain = visible_version-prune_at chain
