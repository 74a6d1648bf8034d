-- ===== src/Storage/Transactions/Commit.antt =====
-- `commit` of ferrite-storage/src/engine.rs, and the states that transactions reach.
use ferrite.Prelude.{ℕ, ◌≤◌, ◌≡◌, refl, subst, true, [], arith, inl, inr, Bool-cases}
use ferrite.Common.Error.{ok, ok-injective}
use ferrite.Common.Txn.{Snapshot}
use ferrite.Storage.Pager.{fresh}
use ferrite.Storage.Page
use ferrite.Storage.Clog
use ferrite.Storage.Clog.Directory.{IsPager}
use ferrite.Storage.Clog.Marking.{Marks, mark_committed-Marks}
use ferrite.Storage.Transactions.{
  with_catalog, Inner, lookup, contains_key, remove, begin, commit, abort, snapshot,
}
use ferrite.Storage.Transactions.Table.{lookup-remove, contains_key-remove}
use ferrite.Storage.Transactions.Invariant.{
  IsSnapshot-mono, IsInner, close-open, begin-IsInner, abort-IsInner, snapshot-IsInner,
}

-- The state behind a commit.
abbrev pub committed_state : Inner → ℕ → Inner
committed_state s t = record s { pager = Clog.mark_committed s.pager t; active = remove s.active t }

pub commit-eq-ok :
    (s s' : Inner) (t : ℕ)
    → commit s t ≡ ok s'
    → (contains_key s.active t ≡ true) × (committed_state s t ≡ s')
unfolding commit
commit-eq-ok s s' t e = elim (Bool-cases (contains_key s.active t)) [
  | inl is_open ↦ (is_open, ok-injective (rw is_open at e))
  | inr closed ↦ cc (rw closed at e)
]

committed_state-IsInner :
    (s : Inner) (t : ℕ)
    → IsInner s
    → Marks s.pager (Clog.mark_committed s.pager t) t
    → contains_key s.active t ≡ true
    → IsInner (committed_state s t)
committed_state-IsInner s t h m is_open = record {
  positive = rw m.next_txn_id h.positive;
  issued = λ u o. rw m.next_txn_id (h.issued u (close-open s t u o));
  uncommitted = λ u o. ground (
    arith,
    m.committed u,
    h.uncommitted u (close-open s t u o),
    contains_key-remove s.active t u,
  );
  unused = λ u later.
      let later' : s.pager.meta.next_txn_id ≤ u = rw m.next_txn_id at later in
      ground (arith, m.committed u, h.unused u later', (h.issued t is_open).1);
  pinned = λ u st e.
      IsSnapshot-mono s (committed_state s t) u st.snapshot (omega (arith, m.next_txn_id))
        (λ v o. inl (close-open s t v o))
        (h.pinned u st (ground (arith, lookup-remove s.active t u)));
}

-- A state of the engine: its transactions and its pages are as they should be.
pub record IsSound (s : Inner) : Type 0 where
  pub transactions : IsInner s
  pub pages : IsPager s.pager

pub commit-IsSound : (s s' : Inner) (t : ℕ) → IsSound s → commit s t ≡ ok s' → IsSound s'
commit-IsSound s s' t h e =
    let (is_open, same) = commit-eq-ok s s' t e in
    let m = mark_committed-Marks s.pager t h.pages in
    subst IsSound same (record {
      transactions = committed_state-IsInner s t h.transactions m is_open;
      pages = m.valid;
    })

-- Other transactions do not write the pages.
pager-abort : (s s' : Inner) (t : ℕ) → abort s t ≡ ok s' → s'.pager ≡ s.pager
unfolding abort
pager-abort s s' t e = ground arith

pager-snapshot :
    (s s' : Inner) (t : ℕ) (snap : Snapshot) → snapshot s t ≡ ok (snap, s') → s'.pager ≡ s.pager
unfolding snapshot
pager-snapshot s s' t snap e = ground arith

begin-IsPager : (s : Inner) → IsPager s.pager → IsPager (begin s).1.pager
unfolding begin
begin-IsPager s h = record {
  frees = h.frees;
  chained = h.chained;
  free_used = h.free_used;
  free_distinct = h.free_distinct;
  free_apart = h.free_apart;
  used = h.used;
  segments = h.segments;
  distinct = h.distinct;
}

-- One call of the engine that begins, ends or re-pins a transaction.
pub data Step (s s' : Inner) : Type 0 where
  begun : (begin s).1 ≡ s' → Step s s'
  ended : (t : ℕ) → commit s t ≡ ok s' → Step s s'
  aborted : (t : ℕ) → abort s t ≡ ok s' → Step s s'
  advanced : (t : ℕ) (snap : Snapshot) → snapshot s t ≡ ok (snap, s') → Step s s'

pub Step-IsSound : (s s' : Inner) → Step s s' → IsSound s → IsSound s'
Step-IsSound s s' (begun e) h =
    subst IsSound e
      (record { transactions = begin-IsInner s h.transactions; pages = begin-IsPager s h.pages })
Step-IsSound s s' (ended t e) h = commit-IsSound s s' t h e
Step-IsSound s s' (aborted t e) h = record {
  transactions = abort-IsInner s s' t h.transactions e;
  pages = rw (pager-abort s s' t e) h.pages;
}
Step-IsSound s s' (advanced t snap e) h = record {
  transactions = snapshot-IsInner s s' t snap h.transactions e;
  pages = rw (pager-snapshot s s' t snap e) h.pages;
}

-- The engine on a new database, as `open_with` leaves it.
abbrev pub initial : Inner
initial = record {
  pager = with_catalog (record { meta = fresh; page_at = λ i. Page.new Page.PageKind.meta });
  active = [];
}

pub data Reach : Inner → Type 0 where
  start : Reach initial
  next : {s s' : Inner} → Reach s → Step s s' → Reach s'

IsSound-initial : IsSound initial
unfolding fresh with_catalog contains_key lookup Clog.is_committed
IsSound-initial = record {
  transactions = record {
    positive = omega arith;
    issued = λ u o. cc;
    uncommitted = λ u o. cc;
    unused = λ u later. refl;
    pinned = λ t st e. cc;
  };
  pages = record {
    frees = [];
    chained = refl;
    free_used = tt;
    free_distinct = tt;
    free_apart = tt;
    used = tt;
    segments = tt;
    distinct = tt;
  };
}

-- Every state that the engine reaches from a new database by begins, commits, aborts and snapshots
-- is sound: transaction ids are fresh, no open or future transaction is committed, every open
-- snapshot holds all other open transactions back, and the allocator and the commit log's pages are
-- well formed.
pub Reach-IsSound : (s : Inner) → Reach s → IsSound s
Reach-IsSound s start = IsSound-initial
Reach-IsSound s (next {s = before} r step) = Step-IsSound before s step (Reach-IsSound before r)
