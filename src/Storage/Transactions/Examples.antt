-- ===== src/Storage/Transactions/Examples.antt =====
-- Transactions on a new database, run.
use ferrite.Prelude.{◌≡◌, refl, true, some, [], ◌∷◌}
use ferrite.Common.Txn.{Snapshot}
use ferrite.Storage.Pager.{fresh}
use ferrite.Storage.Transactions.{
  with_catalog, Inner, lookup, contains_key, sort, others, take_snapshot, begin,
}
use ferrite.Storage.Transactions.Commit.{begun, Reach, start, next, initial, IsSound, Reach-IsSound}

-- Two open transactions, 1 and 2.
abbrev pub two_open : Inner
two_open = (begin (begin initial).1).1

pub two_open-Reach : Reach two_open
two_open-Reach = next (next start (begun refl)) (begun refl)

abbrev pub first_snapshot : Snapshot
first_snapshot = record { txn_id = 1; xmin = 2; active_at_start = [] }

abbrev pub second_snapshot : Snapshot
second_snapshot = record { txn_id = 2; xmin = 3; active_at_start = 1 ∷ [] }

pub lookup_first :
    lookup two_open.active 1 ≡ some (record { snapshot = first_snapshot; dropped = [] })
unfolding lookup begin take_snapshot sort others fresh with_catalog
lookup_first = refl

pub lookup_second :
    lookup two_open.active 2 ≡ some (record { snapshot = second_snapshot; dropped = [] })
unfolding lookup begin take_snapshot sort others fresh with_catalog
lookup_second = refl

pub first-open : contains_key two_open.active 1 ≡ true
unfolding contains_key begin fresh with_catalog
first-open = refl

Reach-IsSound_example : IsSound two_open
Reach-IsSound_example = Reach-IsSound two_open two_open-Reach
