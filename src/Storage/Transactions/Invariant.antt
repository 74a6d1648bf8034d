-- ===== src/Storage/Transactions/Invariant.antt =====
-- What holds of the open transactions of ferrite-storage/src/engine.rs at all times.
use ferrite.Prelude.{
  ℕ, ◌+◌, ◌≤◌, ◌<◌, ◌≡◌, refl, sym, ap, subst, ◌∙◌, true, false, ◌||◌, some, ◌∷◌, arith, leb, ◌==◌,
  ◌⊎◌, inl, inr, Bool-cases,
}
use ferrite.Common.Error.{ok, ok-injective}
use ferrite.Common.Txn.{Snapshot}
use ferrite.Storage.Pager.{Pager}
use ferrite.Storage.Clog
use ferrite.Storage.Transactions.{
  TxnState, Active, Inner, contains, lookup, contains_key, remove, others, set_snapshot,
  take_snapshot, begin, abort, snapshot,
}
use ferrite.Storage.Transactions.Table.{
  lookup-remove, contains_key-remove, contains-others, contains_key-set_snapshot,
  lookup-set_snapshot,
}
use ferrite.Storage.Transactions.Ordering.{IsSorted, sort-IsSorted, contains-sort}

-- A snapshot of `t`: it hides every other open transaction, and its list is sorted.
pub record IsSnapshot (s : Inner) (t : ℕ) (snap : Snapshot) : Type 0 where
  pub keyed : snap.txn_id ≡ t
  pub bounded : snap.xmin ≤ s.pager.meta.next_txn_id
  pub sorted : IsSorted snap.active_at_start
  pub unseen :
      (u : ℕ)
      → contains_key s.active u ≡ true
      → ((u == t) || (leb snap.xmin u || contains snap.active_at_start u)) ≡ true

-- Ids are handed out from 1 on, and no open or future transaction has committed.
pub record IsInner (s : Inner) : Type 0 where
  pub positive : 0 < s.pager.meta.next_txn_id
  pub issued : (u : ℕ) → contains_key s.active u ≡ true → (0 < u) × (u < s.pager.meta.next_txn_id)
  pub uncommitted : (u : ℕ) → contains_key s.active u ≡ true → Clog.is_committed s.pager u ≡ false
  pub unused : (u : ℕ) → s.pager.meta.next_txn_id ≤ u → Clog.is_committed s.pager u ≡ false
  pub pinned : (t : ℕ) (st : TxnState) → lookup s.active t ≡ some st → IsSnapshot s t st.snapshot

-- A snapshot taken now is one.
pub take_snapshot-IsSnapshot : (s : Inner) (t : ℕ) → IsSnapshot s t (take_snapshot s t)
unfolding take_snapshot
take_snapshot-IsSnapshot s t = record {
  keyed = refl;
  bounded = omega arith;
  sorted = sort-IsSorted (others s.active t);
  unseen = λ u is_open.
      ground (arith, contains-sort (others s.active t) u, contains-others s.active t u);
}

-- A snapshot stays one while transactions end, and while new ones get the ids from `next_txn_id` on.
pub IsSnapshot-mono :
    (s s' : Inner) (t : ℕ) (snap : Snapshot)
    → s.pager.meta.next_txn_id ≤ s'.pager.meta.next_txn_id
    → ((u : ℕ)
        → contains_key s'.active u ≡ true
        → (contains_key s.active u ≡ true) ⊎ (s.pager.meta.next_txn_id ≤ u))
    → IsSnapshot s t snap
    → IsSnapshot s' t snap
IsSnapshot-mono s s' t snap grows old h = record {
  keyed = h.keyed;
  bounded = omega (arith, h.bounded);
  sorted = h.sorted;
  unseen = λ u is_open. ground (arith, old u is_open, h.unseen u, h.bounded);
}

-- The state behind the end of `t`.
abbrev pub close : Inner → ℕ → Inner
close s t = record s { active = remove s.active t }

pub close-open :
    (s : Inner) (t u : ℕ)
    → contains_key (close s t).active u ≡ true
    → contains_key s.active u ≡ true
close-open s t u h = ground (arith, contains_key-remove s.active t u)

close-IsInner : (s : Inner) (t : ℕ) → IsInner s → IsInner (close s t)
close-IsInner s t h = record {
  positive = h.positive;
  issued = λ u is_open. h.issued u (close-open s t u is_open);
  uncommitted = λ u is_open. h.uncommitted u (close-open s t u is_open);
  unused = h.unused;
  pinned = λ u st e.
      IsSnapshot-mono s (close s t) u st.snapshot (omega arith)
        (λ v is_open. inl (close-open s t v is_open))
        (h.pinned u st (ground (arith, lookup-remove s.active t u)));
}

-- `abort` keeps the invariant.
pub abort-IsInner : (s s' : Inner) (t : ℕ) → IsInner s → abort s t ≡ ok s' → IsInner s'
unfolding abort
abort-IsInner s s' t h e = elim (Bool-cases (contains_key s.active t)) [
  | inl is_open ↦ subst IsInner (ok-injective (sym (rw is_open) ∙ e)) (close-IsInner s t h)
  | inr closed ↦ cc (rw closed at e)
]

-- The commit bits do not depend on the next id.
is_committed-next :
    (p : Pager) (n u : ℕ)
    → Clog.is_committed (record p { meta = record p.meta { next_txn_id = n } }) u
      ≡ Clog.is_committed p u
unfolding Clog.is_committed
is_committed-next p n u = refl

contains_key-cons :
    (a : Active) (t u : ℕ) (st : TxnState)
    → contains_key ((t, st) ∷ a) u ≡ true
    → ((u == t) ≡ true) ⊎ (contains_key a u ≡ true)
unfolding contains_key
contains_key-cons a t u st h = ground arith

pub lookup-cons :
    (a : Active) (t u : ℕ) (st x : TxnState)
    → lookup ((t, st) ∷ a) u ≡ some x
    → ((u ≡ t) × (x ≡ st)) ⊎ (lookup a u ≡ some x)
unfolding lookup
lookup-cons a t u st x h = ground arith

-- A new transaction is listed under an id from `next_txn_id` on, with a snapshot taken before.
listed :
    (s : Inner) (t n : ℕ) (st : TxnState)
    → s.pager.meta.next_txn_id ≤ t
    → t < n
    → IsInner s
    → (st.snapshot.txn_id ≡ t)
      × (st.snapshot.xmin ≤ n)
      × IsSorted st.snapshot.active_at_start
      × ((u : ℕ)
          → contains_key s.active u ≡ true
          → ((u == t) || (leb st.snapshot.xmin u || contains st.snapshot.active_at_start u)) ≡ true)
    → IsInner (record {
      pager = record s.pager { meta = record s.pager.meta { next_txn_id = n } };
      active = (t, st) ∷ s.active;
    })
listed s t n st fresh_id grows h snap = record {
  positive = omega (arith, h.positive);
  issued = λ u is_open. elim (contains_key-cons s.active t u st is_open) [
    | inl new ↦ let e : u ≡ t = ground arith in (omega (arith, e, h.positive), omega (arith, e))
    | inr old ↦ let (lo, hi) = h.issued u old in (lo, omega (arith, hi))
  ];
  uncommitted = λ u is_open.
      is_committed-next s.pager n u ∙ (elim (contains_key-cons s.active t u st is_open) [
        | inl new ↦ h.unused u (ground arith)
        | inr old ↦ h.uncommitted u old
      ]);
  unused = λ u later. is_committed-next s.pager n u ∙ h.unused u (omega arith);
  pinned = λ u x e. elim (lookup-cons s.active t u st x e) [
    | inl (same, new) ↦
        rw (same, new)
          (record {
            keyed = snap.0;
            bounded = snap.1;
            sorted = snap.2;
            unseen = λ v is_open. elim (contains_key-cons s.active t v st is_open) [
              | inl self ↦ ground arith
              | inr earlier ↦ snap.3 v earlier
            ];
          })
    | inr old ↦
        IsSnapshot-mono s _ u x.snapshot (omega arith)
          (λ v is_open. elim (contains_key-cons s.active t v st is_open) [
            | inl self ↦ inr (ground arith)
            | inr earlier ↦ inl earlier
          ])
          (h.pinned u x old)
  ];
}

-- `begin` keeps the invariant.
pub begin-IsInner : (s : Inner) → IsInner s → IsInner (begin s).1
unfolding begin
begin-IsInner s h =
    let t = s.pager.meta.next_txn_id in
    let now =
      take_snapshot-IsSnapshot
        (record s { pager = record s.pager { meta = record s.pager.meta { next_txn_id = t + 1 } } })
        t in
    listed s t (t + 1) _ (omega arith) (omega arith) h
      (now.keyed, now.bounded, now.sorted, now.unseen)

abbrev repin : Inner → ℕ → Snapshot → Inner
repin s t snap = record s { active = set_snapshot s.active t snap }

repin-open :
    (s : Inner) (t u : ℕ) (snap : Snapshot)
    → contains_key (repin s t snap).active u ≡ true
    → contains_key s.active u ≡ true
repin-open s t u snap h = sym (contains_key-set_snapshot s.active t u snap) ∙ h

IsSnapshot-repin :
    (s : Inner) (t u : ℕ) (snap x : Snapshot) → IsSnapshot s u x → IsSnapshot (repin s t snap) u x
IsSnapshot-repin s t u snap x h =
    IsSnapshot-mono s (repin s t snap) u x (omega arith)
      (λ v is_open. inl (repin-open s t v snap is_open)) h

repin-IsInner :
    (s : Inner) (t : ℕ) (snap : Snapshot)
    → IsInner s
    → IsSnapshot s t snap
    → IsInner (repin s t snap)
repin-IsInner s t snap h taken = record {
  positive = h.positive;
  issued = λ u is_open. h.issued u (repin-open s t u snap is_open);
  uncommitted = λ u is_open. h.uncommitted u (repin-open s t u snap is_open);
  unused = h.unused;
  pinned = λ u st e. elim (lookup-set_snapshot s.active t u snap st e) [
    | inl (same, new) ↦ rw (same, new) (IsSnapshot-repin s t t snap snap taken)
    | inr old ↦ IsSnapshot-repin s t u snap st.snapshot (h.pinned u st old)
  ];
}

-- `snapshot` keeps the invariant.
pub snapshot-IsInner :
    (s s' : Inner) (t : ℕ) (snap : Snapshot) → IsInner s → snapshot s t ≡ ok (snap, s') → IsInner s'
unfolding snapshot
snapshot-IsInner s s' t snap h e = elim (Bool-cases (contains_key s.active t)) [
  | inl is_open ↦
      subst IsInner (ap (λ (p : Snapshot × Inner). p.1) (ok-injective (rw is_open at e)))
        (repin-IsInner s t (take_snapshot s t) h (take_snapshot-IsSnapshot s t))
  | inr closed ↦ cc (rw closed at e)
]
