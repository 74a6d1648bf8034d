-- ===== src/Storage/Mvcc/Examples.antt =====
-- The theorems on row versions at concrete states.
use ferrite.Prelude.{◌≡◌, refl, true, false, some, List, [], ◌∷◌}
use ferrite.Common.Error.{ok, err, serialization_failure}
use ferrite.Storage.Codec.Reader.{Bytes}
use ferrite.Storage.Pager.{fresh}
use ferrite.Storage.Version.{Version, live}
use ferrite.Storage.Transactions.{with_catalog, contains_key, take_snapshot, begin, commit, abort}
use ferrite.Storage.Transactions.Invariant.{close}
use ferrite.Storage.Transactions.Commit.{IsSound, Reach-IsSound, committed_state}
use ferrite.Storage.Transactions.Examples.{
  two_open, two_open-Reach, first_snapshot, second_snapshot, lookup_first, lookup_second,
}
use ferrite.Storage.Mvcc.{
  visible_txn, is_aborted, visible_version, prune_horizon, prune, writable_version, update_chain,
  delete_chain,
}
use ferrite.Storage.Mvcc.{constraint_version}
use ferrite.Storage.Mvcc.Pinned.{IsPinned}
use ferrite.Storage.Mvcc.Pruning.{visible_version-prune}
use ferrite.Storage.Mvcc.Open.{lookup-IsPinned}
use ferrite.Storage.Mvcc.Commit.{commit_stable, commit_visible, abort_invisible}
use ferrite.Storage.Mvcc.Writes.{
  update_reads, update_isolated, delete_isolated, update_conflict, delete_conflict,
}

pub two_open-IsSound : IsSound two_open
two_open-IsSound = Reach-IsSound two_open two_open-Reach

first-IsPinned : IsPinned two_open first_snapshot
first-IsPinned = lookup-IsPinned two_open 1 _ two_open-IsSound.transactions lookup_first

second-IsPinned : IsPinned two_open second_snapshot
second-IsPinned = lookup-IsPinned two_open 2 _ two_open-IsSound.transactions lookup_second

lookup-IsPinned_example : IsPinned two_open second_snapshot
lookup-IsPinned_example = lookup-IsPinned two_open 2 _ two_open-IsSound.transactions lookup_second

-- A row that transaction 1 inserted, and its update and delete.
abbrev inserted : List Version
inserted = live 1 (10 ∷ []) ∷ []

abbrev updated : List Version
updated = live 1 (20 ∷ []) ∷ []

abbrev deleted : List Version
deleted = record { xmin = 1; xmax = 1; bytes = 10 ∷ [] } ∷ []

update_runs : update_chain two_open first_snapshot 1 (20 ∷ []) inserted ≡ ok updated
unfolding update_chain prune prune_horizon writable_version visible_txn is_aborted contains_key
    begin fresh with_catalog
update_runs = refl

delete_runs : delete_chain two_open first_snapshot 1 inserted ≡ ok deleted
unfolding delete_chain prune prune_horizon writable_version visible_txn is_aborted contains_key
    begin fresh with_catalog
delete_runs = refl

visible_version-prune_example :
    visible_version two_open first_snapshot (prune two_open (live 9 (5 ∷ []) ∷ inserted))
    ≡ visible_version two_open first_snapshot (live 9 (5 ∷ []) ∷ inserted)
visible_version-prune_example = visible_version-prune first-IsPinned (live 9 (5 ∷ []) ∷ inserted)

update_reads_example :
    ((old : Bytes) × (visible_version two_open first_snapshot inserted ≡ some old))
    × (visible_version two_open first_snapshot updated ≡ some (20 ∷ []))
update_reads_example = update_reads first-IsPinned (20 ∷ []) inserted updated update_runs

update_isolated_example :
    visible_version two_open second_snapshot updated
    ≡ visible_version two_open second_snapshot inserted
update_isolated_example =
    update_isolated first-IsPinned second-IsPinned refl (20 ∷ []) inserted updated update_runs

delete_isolated_example :
    visible_version two_open second_snapshot deleted
    ≡ visible_version two_open second_snapshot inserted
delete_isolated_example =
    delete_isolated first-IsPinned second-IsPinned refl inserted deleted delete_runs

update_conflict_example :
    (update_chain two_open second_snapshot 2 (30 ∷ []) updated ≡ err serialization_failure)
    × (delete_chain two_open second_snapshot 2 updated ≡ err serialization_failure)
update_conflict_example =
    update_conflict first-IsPinned second-IsPinned refl (20 ∷ []) (30 ∷ []) inserted updated
      update_runs

delete_conflict_example :
    (update_chain two_open second_snapshot 2 (30 ∷ []) deleted ≡ err serialization_failure)
    × (delete_chain two_open second_snapshot 2 deleted ≡ err serialization_failure)
delete_conflict_example =
    delete_conflict first-IsPinned second-IsPinned refl (30 ∷ []) inserted deleted delete_runs

commit_runs : commit two_open 1 ≡ ok (committed_state two_open 1)
unfolding commit contains_key begin fresh with_catalog
commit_runs = refl

pub abort_runs : abort two_open 1 ≡ ok (close two_open 1)
unfolding abort contains_key begin fresh with_catalog
abort_runs = refl

commit_stable_example :
    visible_version (committed_state two_open 1) second_snapshot inserted
    ≡ visible_version two_open second_snapshot inserted
commit_stable_example =
    commit_stable two_open (committed_state two_open 1) second_snapshot 1 inserted two_open-IsSound
      second-IsPinned refl commit_runs

commit_visible_example :
    visible_txn (committed_state two_open 1) (take_snapshot (committed_state two_open 1) 2) 1 ≡ true
commit_visible_example =
    commit_visible two_open (committed_state two_open 1) 1 2 two_open-IsSound commit_runs

abort_invisible_example :
    (visible_txn (close two_open 1) second_snapshot 1 ≡ false)
    × (is_aborted (close two_open 1) 1 ≡ true)
abort_invisible_example =
    abort_invisible two_open (close two_open 1) 1 second_snapshot two_open-IsSound abort_runs refl

pub created_stands : is_aborted two_open 2 ≡ false
unfolding is_aborted contains_key begin fresh with_catalog
created_stands = refl

pub inserted_stands :
    (bytes : Bytes) → constraint_version two_open 2 (live 1 bytes ∷ []) ≡ some bytes
unfolding constraint_version is_aborted contains_key begin fresh with_catalog
inserted_stands bytes = refl
