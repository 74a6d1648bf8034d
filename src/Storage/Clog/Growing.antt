-- ===== src/Storage/Clog/Growing.antt =====
-- `grow` and `push_segment` of ferrite-storage/src/clog.rs leave the bits that are set as they are.
use ferrite.Prelude.{
  ℕ, zero, suc, ◌+◌, ◌/◌, ◌%◌, ◌<◌, ◌≡◌, refl, ap, sym, subst, ◌∙◌, true, false, some, List, [],
  ◌∷◌, arith, length, length-append, All, get_elem?, get_elem?-append_lt, get_elem?-snoc, ◌==◌,
  Option-cases, inl, inr,
}
use ferrite.Storage.Page
use ferrite.Storage.Page.{Page, PageKind, page_size, header_size, body_at, set_body}
use ferrite.Storage.Page.Body.{body_at-new}
use ferrite.Storage.Pager.{Pager}
use ferrite.Storage.Clog.{locate, has_bit, is_committed, push_segment, grow, txns_per_clog_page}
use ferrite.Storage.Clog.Bits.{has-zero}
use ferrite.Storage.Clog.Directory.{Distinct, IsPager, Pushed, push_segment-Pushed}

-- The segment, the byte and the bit of a transaction.
abbrev pub segment : ℕ → ℕ
segment txn = txn / txns_per_clog_page

abbrev pub byte : ℕ → ℕ
byte txn = txn % txns_per_clog_page / 8

abbrev pub bit : ℕ → ℕ
bit txn = txn % txns_per_clog_page % 8

pub All-get_elem? :
    (P : ℕ → Type 0) (xs : List ℕ) (k x : ℕ) → All P xs → get_elem? xs k ≡ some x → P x
All-get_elem? P [] k x h e = cc
All-get_elem? P (y ∷ xs) zero x (hy, h) e = subst P (ground arith) hy
All-get_elem? P (y ∷ xs) (suc k) x (hy, h) e = All-get_elem? P xs k x h e

pub Distinct-get_elem? :
    (xs : List ℕ) (j k x : ℕ)
    → Distinct xs
    → get_elem? xs j ≡ some x
    → get_elem? xs k ≡ some x
    → j ≡ k
Distinct-get_elem? [] j k x h p q = cc
Distinct-get_elem? (y ∷ xs) zero zero x h p q = refl
Distinct-get_elem? (y ∷ xs) zero (suc k) x (a, h) p q =
    absurd (ground (arith, All-get_elem? (λ j. (j == y) ≡ false) xs k x a q))
Distinct-get_elem? (y ∷ xs) (suc j) zero x (a, h) p q =
    absurd (ground (arith, All-get_elem? (λ j. (j == y) ≡ false) xs j x a p))
Distinct-get_elem? (y ∷ xs) (suc j) (suc k) x (a, h) p q =
    ap suc (Distinct-get_elem? xs j k x h p q)

page_at-Pushed : (p q : Pager) (h : Pushed p q) → q.page_at h.added ≡ Page.new PageKind.clog
page_at-Pushed p q h =
    ap (λ (f : ℕ → Page). f h.added) h.pages
    ∙ (let e : (h.added == h.added) ≡ true = ground arith in rw e)

page_at-other :
    (p q : Pager) (k id : ℕ) (h : Pushed p q)
    → get_elem? p.meta.clog_pages k ≡ some id
    → q.page_at id ≡ p.page_at id
page_at-other p q k id h e =
    let old = All-get_elem? (λ j. (j == h.added) ≡ false) p.meta.clog_pages k id h.fresh e in
    ap (λ (f : ℕ → Page). f id) h.pages
    ∙ (let apart : (h.added == id) ≡ false = ground arith in rw apart)

get_elem?-lt : (xs : List ℕ) (k x : ℕ) → get_elem? xs k ≡ some x → k < length xs
get_elem?-lt [] k x e = cc
get_elem?-lt (y ∷ xs) zero x e = omega arith
get_elem?-lt (y ∷ xs) (suc k) x e = omega (arith, get_elem?-lt xs k x e)

-- A new segment has no bit set.
has_bit-new : (p q : Pager) (u : ℕ) (h : Pushed p q) → has_bit q (locate u) (some h.added) ≡ false
unfolding has_bit locate
has_bit-new p q u h =
    rw (page_at-Pushed p q h, body_at-new PageKind.clog (u % txns_per_clog_page / 8))
      (has-zero (bit u) (omega arith))

has_bit-old :
    (p q : Pager) (u k id : ℕ) (h : Pushed p q)
    → get_elem? p.meta.clog_pages k ≡ some id
    → has_bit q (locate u) (some id) ≡ has_bit p (locate u) (some id)
unfolding has_bit
has_bit-old p q u k id h e = rw (page_at-other p q k id h e)

is_committed-push : (p q : Pager) (u : ℕ) → Pushed p q → is_committed q u ≡ is_committed p u
unfolding is_committed
is_committed-push p q u h =
    let k = (locate u).segment in
    elim (Option-cases (get_elem? p.meta.clog_pages k)) [
      | inr (id, e) ↦
          ap (has_bit q (locate u)) (
            ap (λ (l : List ℕ). get_elem? l k) h.directory
            ∙ get_elem?-append_lt p.meta.clog_pages (h.added ∷ []) k
                (get_elem?-lt p.meta.clog_pages k id e)
            ∙ e)
          ∙ has_bit-old p q u k id h e
          ∙ ap (has_bit p (locate u)) (sym e)
      | inl e ↦ elim (Option-cases (get_elem? q.meta.clog_pages k)) [
        | inl e' ↦ ap (has_bit q (locate u)) e' ∙ sym (ap (has_bit p (locate u)) e)
        | inr (x, e') ↦
            elim (get_elem?-snoc p.meta.clog_pages h.added k x
              (sym (ap (λ (l : List ℕ). get_elem? l k) h.directory) ∙ e')) [
                | inl (last, same) ↦
                    ap (has_bit q (locate u)) (e' ∙ ap some same)
                    ∙ has_bit-new p q u h
                    ∙ sym (ap (has_bit p (locate u)) e)
                | inr old ↦ cc (e, old)
              ]
      ]
    ]

pub grow-length :
    (n : ℕ) (p : Pager)
    → IsPager p
    → length (grow n p).meta.clog_pages ≡ length p.meta.clog_pages + n
unfolding grow
grow-length zero p h = omega arith
grow-length (suc n) p h =
    let s = push_segment-Pushed p h in
    omega (
      arith,
      grow-length n (push_segment p) s.valid,
      ap (λ (l : List ℕ). length l) s.directory,
      length-append p.meta.clog_pages (s.added ∷ []),
    )

pub grow-IsPager : (n : ℕ) (p : Pager) → IsPager p → IsPager (grow n p)
unfolding grow
grow-IsPager zero p h = h
grow-IsPager (suc n) p h = grow-IsPager n (push_segment p) (push_segment-Pushed p h).valid

pub is_committed-grow :
    (n : ℕ) (p : Pager) (u : ℕ) → IsPager p → is_committed (grow n p) u ≡ is_committed p u
unfolding grow
is_committed-grow zero p u h = refl
is_committed-grow (suc n) p u h =
    let s = push_segment-Pushed p h in
    is_committed-grow n (push_segment p) u s.valid ∙ is_committed-push p (push_segment p) u s

pub next_txn_id-grow :
    (n : ℕ) (p : Pager) → IsPager p → (grow n p).meta.next_txn_id ≡ p.meta.next_txn_id
unfolding grow
next_txn_id-grow zero p h = refl
next_txn_id-grow (suc n) p h =
    let s = push_segment-Pushed p h in next_txn_id-grow n (push_segment p) s.valid ∙ s.next_txn_id
