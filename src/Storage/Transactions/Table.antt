-- ===== src/Storage/Transactions/Table.antt =====
-- The map of open transactions of ferrite-storage/src/engine.rs.
use ferrite.Prelude.{
  ◌⊎◌, ℕ, ◌≡◌, refl, true, false, none, some, [], ◌∷◌, arith, ◌==◌, if◌then◌else◌,
}
use ferrite.Common.Txn.{Snapshot}
use ferrite.Storage.Transactions.{
  TxnState, Active, contains, lookup, contains_key, remove, others, set_snapshot,
}

pub contains_key-lookup :
    (a : Active) (t : ℕ) (st : TxnState) → lookup a t ≡ some st → contains_key a t ≡ true
unfolding lookup contains_key
contains_key-lookup [] t st h = cc
contains_key-lookup ((id, x) ∷ rest) t st h = ground (arith, contains_key-lookup rest t st)

pub lookup-remove :
    (a : Active) (t u : ℕ) → lookup (remove a t) u ≡ (if u == t then none else lookup a u)
unfolding lookup remove
lookup-remove [] t u = ground arith
lookup-remove ((id, x) ∷ rest) t u = ground (arith, lookup-remove rest t u)

pub contains_key-remove :
    (a : Active) (t u : ℕ)
    → contains_key (remove a t) u ≡ (if u == t then false else contains_key a u)
unfolding contains_key remove
contains_key-remove [] t u = ground arith
contains_key-remove ((id, x) ∷ rest) t u = ground (arith, contains_key-remove rest t u)

pub contains-others :
    (a : Active) (t u : ℕ) → contains (others a t) u ≡ (if u == t then false else contains_key a u)
unfolding contains others contains_key
contains-others [] t u = ground arith
contains-others ((id, x) ∷ rest) t u = ground (arith, contains-others rest t u)

pub contains_key-set_snapshot :
    (a : Active) (t u : ℕ) (snap : Snapshot)
    → contains_key (set_snapshot a t snap) u ≡ contains_key a u
unfolding contains_key set_snapshot
contains_key-set_snapshot [] t u snap = refl
contains_key-set_snapshot ((id, x) ∷ rest) t u snap =
    ground (arith, contains_key-set_snapshot rest t u snap)

-- Behind `set_snapshot` the state of `t` has the new snapshot, and the others are as before.
pub lookup-set_snapshot :
    (a : Active) (t u : ℕ) (snap : Snapshot) (st : TxnState)
    → lookup (set_snapshot a t snap) u ≡ some st
    → ((u ≡ t) × (st.snapshot ≡ snap)) ⊎ (lookup a u ≡ some st)
unfolding lookup set_snapshot
lookup-set_snapshot [] t u snap st h = cc
lookup-set_snapshot ((id, x) ∷ rest) t u snap st h =
    ground (arith, lookup-set_snapshot rest t u snap st)
