-- ===== src/Storage/Mvcc/Writes.antt =====
-- Updates and deletes of ferrite-storage/src/engine.rs: what they replace, what each transaction
-- reads then, and the conflict of two writers.
use ferrite.Prelude.{ap, ℕ, ◌≡◌, refl, sym, ◌∙◌, true, false, some, List, [], ◌∷◌, arith, ◌==◌, ◌⊎◌}
use ferrite.Common.Error.{serialization_failure, Result, ok, err}
use ferrite.Common.Txn.{Snapshot}
use ferrite.Storage.Codec.Reader.{Bytes}
use ferrite.Storage.Version.{Version, no_txn}
use ferrite.Storage.Transactions.{Inner}
use ferrite.Storage.Mvcc.{
  visible_txn, is_aborted, visible_version, prune, writable_version, supersede, mark_deleted,
  checked, update_chain, delete_chain,
}
use ferrite.Storage.Mvcc.Pinned.{
  IsPinned, aborted_invisible, own_visible, visible_kept, own_kept, open_invisible,
}
use ferrite.Storage.Mvcc.Pruning.{visible_version-prune}

-- The newest version may be replaced: its creator is visible, and it has no deleter but an aborted one.
pub record IsWritable (s : Inner) (snap : Snapshot) (newest : Version) : Type 0 where
  pub created : visible_txn s snap newest.xmin ≡ true
  pub kept : ((newest.xmax == no_txn) ≡ true) ⊎ (is_aborted s newest.xmax ≡ true)

IsWritable-head :
    (s : Inner) (snap : Snapshot) (newest : Version) (older : List Version) (i : ℕ)
    → writable_version s snap (newest ∷ older) ≡ ok i
    → IsWritable s snap newest
unfolding writable_version
IsWritable-head s snap newest older i h = ground arith

checked-eq-ok :
    (m : Result ℕ) (new : List Version) (out : List Version)
    → checked m new ≡ ok out
    → (i : ℕ) × (m ≡ ok i) × (new ≡ out)
unfolding checked
checked-eq-ok (ok i) new out h = (i, refl, ground arith)
checked-eq-ok (err e) new out h = cc

-- A write that succeeds had a newest version that may be replaced.
pub record Written (s : Inner) (snap : Snapshot) (chain : List Version) : Type 0 where
  pub newest : Version
  pub older : List Version
  pub pruned : prune s chain ≡ newest ∷ older
  pub writable : IsWritable s snap newest

written :
    (s : Inner) (snap : Snapshot) (chain pruned : List Version) (i : ℕ)
    → prune s chain ≡ pruned
    → writable_version s snap pruned ≡ ok i
    → Written s snap chain
written s snap chain [] i e h = unfold writable_version in cc
written s snap chain (newest ∷ older) i e h = record {
  newest = newest;
  older = older;
  pruned = e;
  writable = IsWritable-head s snap newest older i h;
}

module _ {s : Inner} {snap : Snapshot} (pinned : IsPinned s snap) where
  -- The version that a write replaces is the one that its transaction reads.
  pub visible-newest :
      (newest : Version) (older : List Version)
      → IsWritable s snap newest
      → visible_version s snap (newest ∷ older) ≡ some newest.bytes
  unfolding visible_version
  visible-newest newest older w =
      ground (arith, w.created, w.kept, aborted_invisible pinned newest.xmax)

  pub visible-supersede :
      (bytes : Bytes) (newest : Version) (older : List Version)
      → IsWritable s snap newest
      → visible_version s snap (supersede snap.txn_id bytes (newest ∷ older)) ≡ some bytes
  unfolding visible_version supersede
  visible-supersede bytes newest older w =
      ground (arith, w.created, w.kept, aborted_invisible pinned newest.xmax, own_visible pinned)

  -- Under the pinned snapshot of the writer, an update that succeeds replaces a version that its
  -- transaction reads, and its transaction reads the new bytes then.
  pub update_reads :
      (bytes : Bytes) (chain new : List Version)
      → update_chain s snap snap.txn_id bytes chain ≡ ok new
      → ((old : Bytes) × (visible_version s snap chain ≡ some old))
        × (visible_version s snap new ≡ some bytes)
  unfolding update_chain
  update_reads bytes chain new h =
      let (i, passed, same) = checked-eq-ok (writable_version s snap (prune s chain)) _ new h in
      let w = written s snap chain (prune s chain) i refl passed in
      (
        (
          w.newest.bytes,
          sym (visible_version-prune pinned chain)
              ∙ ap (visible_version s snap) w.pruned
              ∙ visible-newest w.newest w.older w.writable,
        ),
        ap (visible_version s snap) (sym same ∙ ap (supersede snap.txn_id bytes) w.pruned)
            ∙ visible-supersede bytes w.newest w.older w.writable,
      )

  -- Under the pinned snapshot of the writer, a delete that succeeds had a version that its
  -- transaction reads.
  pub delete_reads :
      (chain new : List Version)
      → delete_chain s snap snap.txn_id chain ≡ ok new
      → (old : Bytes) × (visible_version s snap chain ≡ some old)
  unfolding delete_chain
  delete_reads chain new h =
      let (i, passed, same) = checked-eq-ok (writable_version s snap (prune s chain)) _ new h in
      let w = written s snap chain (prune s chain) i refl passed in
      (
        w.newest.bytes,
        sym (visible_version-prune pinned chain)
            ∙ ap (visible_version s snap) w.pruned
            ∙ visible-newest w.newest w.older w.writable,
      )

-- Two open transactions.
module _ {s : Inner} {snap other : Snapshot} (pinned : IsPinned s snap) (apart : IsPinned s other)
    (distinct : (snap.txn_id == other.txn_id) ≡ false) where
  writer_invisible : visible_txn s other snap.txn_id ≡ false
  writer_invisible = open_invisible apart snap.txn_id pinned.own distinct

  other-supersede :
      (bytes : Bytes) (newest : Version) (older : List Version)
      → IsWritable s snap newest
      → visible_version s other (supersede snap.txn_id bytes (newest ∷ older))
        ≡ visible_version s other (newest ∷ older)
  unfolding visible_version supersede
  other-supersede bytes newest older w =
      ground (arith, w.kept, writer_invisible, aborted_invisible apart newest.xmax)

  other-mark_deleted :
      (newest : Version) (older : List Version)
      → IsWritable s snap newest
      → visible_version s other (mark_deleted snap.txn_id (newest ∷ older))
        ≡ visible_version s other (newest ∷ older)
  unfolding visible_version mark_deleted
  other-mark_deleted newest older w =
      ground (arith, w.kept, writer_invisible, aborted_invisible apart newest.xmax)

  -- Of two open transactions with distinct ids and pinned snapshots, an update that one of them
  -- makes changes nothing that the other reads.
  pub update_isolated :
      (bytes : Bytes) (chain new : List Version)
      → update_chain s snap snap.txn_id bytes chain ≡ ok new
      → visible_version s other new ≡ visible_version s other chain
  unfolding update_chain
  update_isolated bytes chain new h =
      let (i, passed, same) = checked-eq-ok (writable_version s snap (prune s chain)) _ new h in
      let w = written s snap chain (prune s chain) i refl passed in
      ap (visible_version s other) (sym same ∙ ap (supersede snap.txn_id bytes) w.pruned)
      ∙ other-supersede bytes w.newest w.older w.writable
      ∙ ap (visible_version s other) (sym w.pruned)
      ∙ visible_version-prune apart chain

  -- Of two open transactions with distinct ids and pinned snapshots, a delete that one of them
  -- makes changes nothing that the other reads.
  pub delete_isolated :
      (chain new : List Version)
      → delete_chain s snap snap.txn_id chain ≡ ok new
      → visible_version s other new ≡ visible_version s other chain
  unfolding delete_chain
  delete_isolated chain new h =
      let (i, passed, same) = checked-eq-ok (writable_version s snap (prune s chain)) _ new h in
      let w = written s snap chain (prune s chain) i refl passed in
      ap (visible_version s other) (sym same ∙ ap (mark_deleted snap.txn_id) w.pruned)
      ∙ other-mark_deleted w.newest w.older w.writable
      ∙ ap (visible_version s other) (sym w.pruned)
      ∙ visible_version-prune apart chain

  -- The head that a writer leaves stays through the pruning, and refuses the other writer.
  refuses_supersede :
      (bytes : Bytes) (newest : Version) (older : List Version)
      → IsWritable s snap newest
      → writable_version s other (prune s (supersede snap.txn_id bytes (newest ∷ older)))
        ≡ err serialization_failure
  unfolding prune supersede writable_version
  refuses_supersede bytes newest older w = ground (arith, w.kept, own_kept pinned, writer_invisible)

  refuses_mark_deleted :
      (newest : Version) (older : List Version)
      → IsWritable s snap newest
      → writable_version s other (prune s (mark_deleted snap.txn_id (newest ∷ older)))
        ≡ err serialization_failure
  unfolding prune mark_deleted writable_version
  refuses_mark_deleted newest older w = ground (
    arith,
    visible_kept pinned newest.xmin w.created,
    own_kept pinned,
    pinned.uncommitted,
    pinned.positive,
    distinct,
    writer_invisible,
  )

  -- Of two open transactions with distinct ids and pinned snapshots, the first writer of a row
  -- wins: after an update by one succeeds, an update and a delete of the row by the other fail with
  -- a serialization failure.
  pub update_conflict :
      (first second : Bytes) (chain new : List Version)
      → update_chain s snap snap.txn_id first chain ≡ ok new
      → (update_chain s other other.txn_id second new ≡ err serialization_failure)
        × (delete_chain s other other.txn_id new ≡ err serialization_failure)
  unfolding update_chain delete_chain
  update_conflict first second chain new h =
      let (i, passed, same) = checked-eq-ok (writable_version s snap (prune s chain)) _ new h in
      let w = written s snap chain (prune s chain) i refl passed in
      let refused : writable_version s other (prune s new) ≡ err serialization_failure =
        ap (λ l. writable_version s other (prune s l))
          (sym same ∙ ap (supersede snap.txn_id first) w.pruned)
        ∙ refuses_supersede first w.newest w.older w.writable in
      (rw refused refl, rw refused refl)

  -- Of two open transactions with distinct ids and pinned snapshots, after a delete by one
  -- succeeds, an update and a delete of the row by the other fail with a serialization failure.
  pub delete_conflict :
      (second : Bytes) (chain new : List Version)
      → delete_chain s snap snap.txn_id chain ≡ ok new
      → (update_chain s other other.txn_id second new ≡ err serialization_failure)
        × (delete_chain s other other.txn_id new ≡ err serialization_failure)
  unfolding update_chain delete_chain
  delete_conflict second chain new h =
      let (i, passed, same) = checked-eq-ok (writable_version s snap (prune s chain)) _ new h in
      let w = written s snap chain (prune s chain) i refl passed in
      let refused : writable_version s other (prune s new) ≡ err serialization_failure =
        ap (λ l. writable_version s other (prune s l))
          (sym same ∙ ap (mark_deleted snap.txn_id) w.pruned)
        ∙ refuses_mark_deleted w.newest w.older w.writable in
      (rw refused refl, rw refused refl)
