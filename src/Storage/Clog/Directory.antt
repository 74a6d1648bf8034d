-- ===== src/Storage/Clog/Directory.antt =====
-- The directory of commit-log pages of ferrite-storage/src/clog.rs, and the free list of
-- ferrite-storage/src/pager.rs beside it.
use ferrite.Prelude.{
  ℕ, ◌+◌, ◌≤◌, ◌<◌, ◌≡◌, refl, Bool, true, false, List, [], ◌∷◌, ◌++◌, arith, length, All, ◌==◌,
  if◌then◌else◌, Bool-cases, inl, inr,
}
use ferrite.Storage.Page
use ferrite.Storage.Page.{Page, PageKind, page_size, body_at}
use ferrite.Storage.Page.Body.{length-new, body_at-new}
use ferrite.Storage.Pager.{Meta, Pager, update, alloc_page}
use ferrite.Storage.Clog.{push_segment}

-- `i` is none of the ids; no id stands twice.
abbrev pub Apart : ℕ → List ℕ → Type 0
Apart i ids = All (λ j. (j == i) ≡ false) ids

abbrev pub Distinct : List ℕ → Type 0
Distinct [] = Unit
Distinct (i ∷ ids) = Apart i ids × Distinct ids

-- The free list from `head` on is `ids`, linked by the `extra` field.
abbrev pub IsFreeList : (ℕ → Page) → ℕ → List ℕ → Type 0
IsFreeList page_at head [] = head ≡ 0
IsFreeList page_at head (i ∷ ids) = (head ≡ i) × IsFreeList page_at (Page.extra (page_at i)) ids

-- A whole page of bytes.
pub record IsSegment (page : Page) : Type 0 where
  pub size : length page.bytes ≡ page_size
  pub bytes : (i : ℕ) → body_at page i < 256

-- The pages of the directory are used once, and are neither free nor past the end.
pub record IsPager (p : Pager) : Type 0 where
  pub frees : List ℕ
  pub chained : IsFreeList p.page_at p.meta.free_list_head frees
  pub free_used : All (λ i. (0 < i) × (i < p.meta.page_count)) frees
  pub free_distinct : Distinct frees
  pub free_apart : All (λ i. Apart i p.meta.clog_pages) frees
  pub used : All (λ i. i < p.meta.page_count) p.meta.clog_pages
  pub segments : All (λ i. IsSegment (p.page_at i)) p.meta.clog_pages
  pub distinct : Distinct p.meta.clog_pages

All-snoc {ℓ} :
    {A : Type ℓ} (P : A → Type 0) (xs : List A) (y : A) → All P xs → P y → All P (xs ++ y ∷ [])
All-snoc P [] y h hy = (hy, tt)
All-snoc P (x ∷ xs) y h hy = (h.0, All-snoc P xs y h.1 hy)

pub All-map {ℓ} :
    {A : Type ℓ} (P Q : A → Type 0) (xs : List A) → ((x : A) → P x → Q x) → All P xs → All Q xs
All-map P Q [] f h = tt
All-map P Q (x ∷ xs) f (a, b) = (f x a, All-map P Q xs f b)

Distinct-snoc : (ids : List ℕ) (i : ℕ) → Distinct ids → Apart i ids → Distinct (ids ++ i ∷ [])
Distinct-snoc [] i h a = (tt, tt)
Distinct-snoc (j ∷ ids) i (hj, h) (ne, a) =
    (All-snoc (λ k. (k == j) ≡ false) ids i hj (ground arith), Distinct-snoc ids i h a)

Apart_below : (ids : List ℕ) (n : ℕ) → All (λ i. i < n) ids → Apart n ids
Apart_below ids n = All-map (λ i. i < n) (λ j. (j == n) ≡ false) ids (λ j h. ground arith)

-- A write of a page that is apart leaves the others.
pub segments-update :
    (page_at : ℕ → Page) (ids : List ℕ) (n : ℕ) (page : Page)
    → Apart n ids
    → All (λ i. IsSegment (page_at i)) ids
    → All (λ i. IsSegment (update page_at n page i)) ids
segments-update page_at [] n page a h = tt
segments-update page_at (i ∷ ids) n page (ne, a) (seg, h) =
    let apart : (n == i) ≡ false = ground arith in
    (rw apart seg, segments-update page_at ids n page a h)

pub segments-update_valid :
    (page_at : ℕ → Page) (ids : List ℕ) (n : ℕ) (page : Page)
    → IsSegment page
    → All (λ i. IsSegment (page_at i)) ids
    → All (λ i. IsSegment (update page_at n page i)) ids
segments-update_valid page_at [] n page seg h = tt
segments-update_valid page_at (i ∷ ids) n page seg (old, h) =
    (pick (n == i) page (page_at i) seg old, segments-update_valid page_at ids n page seg h)
  where
    pick : (b : Bool) (x y : Page) → IsSegment x → IsSegment y → IsSegment (if b then x else y)
    pick true x y hx hy = hx
    pick false x y hx hy = hy

pub IsFreeList-update :
    (page_at : ℕ → Page) (head : ℕ) (ids : List ℕ) (n : ℕ) (page : Page)
    → Apart n ids
    → IsFreeList page_at head ids
    → IsFreeList (update page_at n page) head ids
IsFreeList-update page_at head [] n page a h = h
IsFreeList-update page_at head (i ∷ ids) n page (ne, a) (e, h) =
    let apart : (n == i) ≡ false = ground arith in
    (e, rw apart (IsFreeList-update page_at (Page.extra (page_at i)) ids n page a h))

IsSegment-new : (kind : PageKind) → IsSegment (Page.new kind)
IsSegment-new kind = record {
  size = length-new kind;
  bytes = λ i. rw (body_at-new kind i) (omega arith);
}

-- What `push_segment` adds: a page of zeros that the directory did not have.
pub record Pushed (p q : Pager) : Type 0 where
  pub added : ℕ
  pub fresh : Apart added p.meta.clog_pages
  pub directory : q.meta.clog_pages ≡ p.meta.clog_pages ++ added ∷ []
  pub pages : q.page_at ≡ update p.page_at added (Page.new PageKind.clog)
  pub next_txn_id : q.meta.next_txn_id ≡ p.meta.next_txn_id
  pub valid : IsPager q

self_update :
    (page_at : ℕ → Page) (n : ℕ) (page : Page)
    → IsSegment page
    → IsSegment (update page_at n page n)
self_update page_at n page h = let e : (n == n) ≡ true = ground arith in rw e h

apart-snoc :
    (clogs frees : List ℕ) (n : ℕ)
    → All (λ i. Apart i clogs) frees
    → Apart n frees
    → All (λ i. Apart i (clogs ++ n ∷ [])) frees
apart-snoc clogs [] n h a = tt
apart-snoc clogs (i ∷ ids) n (hi, h) (ne, a) =
    (All-snoc (λ j. (j == i) ≡ false) clogs n hi (ground arith), apart-snoc clogs ids n h a)

-- Facts about an unused page `n`, with the free list that its allocation leaves.
record Unused (p : Pager) (n : ℕ) (m : Meta) : Type 0 where
  frees : List ℕ
  directory : m.clog_pages ≡ p.meta.clog_pages ++ n ∷ []
  next_txn_id : m.next_txn_id ≡ p.meta.next_txn_id
  grows : p.meta.page_count ≤ m.page_count
  within : n < m.page_count
  fresh : Apart n p.meta.clog_pages
  chained : IsFreeList p.page_at m.free_list_head frees
  apart : Apart n frees
  free_used : All (λ i. (0 < i) × (i < m.page_count)) frees
  free_distinct : Distinct frees
  free_apart : All (λ i. Apart i p.meta.clog_pages) frees

pushed :
    (p : Pager) (n : ℕ) (m : Meta)
    → IsPager p
    → Unused p n m
    → Pushed p (record { meta = m; page_at = update p.page_at n (Page.new PageKind.clog) })
pushed p n m h u = record {
  added = n;
  fresh = u.fresh;
  directory = u.directory;
  pages = refl;
  next_txn_id = u.next_txn_id;
  valid = record {
    frees = u.frees;
    chained = IsFreeList-update p.page_at m.free_list_head u.frees n _ u.apart u.chained;
    free_used = u.free_used;
    free_distinct = u.free_distinct;
    free_apart = rw u.directory (apart-snoc p.meta.clog_pages u.frees n u.free_apart u.apart);
    used = rw u.directory (
        All-snoc (λ i. i < m.page_count) p.meta.clog_pages n
          (All-map (λ i. i < p.meta.page_count) (λ i. i < m.page_count) p.meta.clog_pages
            (λ i lt. omega (arith, lt, u.grows)) h.used)
          u.within);
    segments = rw u.directory (
        All-snoc (λ i. IsSegment (update p.page_at n (Page.new PageKind.clog) i)) p.meta.clog_pages
          n (segments-update p.page_at p.meta.clog_pages n _ u.fresh h.segments)
          (self_update p.page_at n _ (IsSegment-new PageKind.clog)));
    distinct = rw u.directory (Distinct-snoc p.meta.clog_pages n h.distinct u.fresh);
  };
}

push_new : (p : Pager) → IsPager p → (p.meta.free_list_head == 0) ≡ true → Pushed p (push_segment p)
unfolding push_segment alloc_page
push_new p h e = rw e (
    pushed p p.meta.page_count _ h (record {
      frees = h.frees;
      directory = refl;
      next_txn_id = refl;
      grows = omega arith;
      within = omega arith;
      fresh = Apart_below p.meta.clog_pages p.meta.page_count h.used;
      chained = h.chained;
      apart =
          Apart_below h.frees p.meta.page_count
            (All-map _ (λ i. i < p.meta.page_count) h.frees (λ i lt. lt.1) h.free_used);
      free_used =
          All-map _ (λ i. (0 < i) × (i < p.meta.page_count + 1)) h.frees
            (λ i lt. (lt.0, omega (arith, lt.1))) h.free_used;
      free_distinct = h.free_distinct;
      free_apart = h.free_apart;
    }))

Unused-head :
    (p : Pager) (n : ℕ) (m : Meta) (frees : List ℕ)
    → IsPager p
    → m ≡ record p.meta {
      free_list_head = Page.extra (p.page_at n);
      clog_pages = p.meta.clog_pages ++ n ∷ [];
    }
    → (n == 0) ≡ false
    → IsFreeList p.page_at n frees
    → All (λ i. (0 < i) × (i < p.meta.page_count)) frees
    → Distinct frees
    → All (λ i. Apart i p.meta.clog_pages) frees
    → Unused p n m
Unused-head p n m [] h e pos c used d a = absurd (ground arith)
Unused-head p n m (i ∷ ids) h e pos (same, c) (lt, used) (di, d) (ai, a) =
    rw (e, same)
      (record {
        frees = ids;
        directory = refl;
        next_txn_id = refl;
        grows = omega arith;
        within = lt.1;
        fresh = ai;
        chained = c;
        apart = di;
        free_used = used;
        free_distinct = d;
        free_apart = a;
      })

push_free :
    (p : Pager) → IsPager p → (p.meta.free_list_head == 0) ≡ false → Pushed p (push_segment p)
unfolding push_segment alloc_page
push_free p h e = rw e (
    pushed p p.meta.free_list_head _ h (
      Unused-head p p.meta.free_list_head _ h.frees h refl e h.chained h.free_used h.free_distinct
        h.free_apart))

-- A new segment takes a page that nothing else uses.
pub push_segment-Pushed : (p : Pager) → IsPager p → Pushed p (push_segment p)
push_segment-Pushed p h = elim (Bool-cases (p.meta.free_list_head == 0)) [
  | inl e ↦ push_new p h e
  | inr e ↦ push_free p h e
]
