-- ===== src/Storage/Mvcc/Constraint.antt =====
-- What a unique constraint reckons with in ferrite-storage/src/engine.rs, before and after the end of
-- the transaction that asks.
use ferrite.Prelude.{ℕ, ◌≡◌, true, false, none, some, List, ◌∷◌, arith, ◌==◌}
use ferrite.Common.Error.{ok}
use ferrite.Storage.Version.{Version}
use ferrite.Storage.Transactions.{Inner, abort}
use ferrite.Storage.Transactions.Table.{contains_key-remove}
use ferrite.Storage.Transactions.Commit.{IsSound}
use ferrite.Storage.Mvcc.{is_aborted, constraint_version}

-- In a sound state, constraint_version gives an open transaction nothing of a row whose newest
-- version that transaction deleted and another, not aborted, created; once it has aborted,
-- constraint_version gives every transaction the bytes of that version.
pub constraint_version-abort :
    (s s' : Inner) (t u : ℕ) (v : Version) (older : List Version)
    → IsSound s
    → abort s t ≡ ok s'
    → (v.xmax == t) ≡ true
    → (v.xmin == t) ≡ false
    → is_aborted s v.xmin ≡ false
    → (constraint_version s t (v ∷ older) ≡ none)
      × (constraint_version s' u (v ∷ older) ≡ some v.bytes)
unfolding abort constraint_version is_aborted
constraint_version-abort s s' t u v older h e deleted other made = ground (
  arith,
  h.transactions.uncommitted t,
  h.transactions.issued t,
  contains_key-remove s.active t t,
  contains_key-remove s.active t v.xmin,
  contains_key-remove s.active t v.xmax,
)
