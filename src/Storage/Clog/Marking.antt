-- ===== src/Storage/Clog/Marking.antt =====
-- `mark_committed` of ferrite-storage/src/clog.rs sets the bit of its transaction, and no other.
use ferrite.Prelude.{
  ℕ, suc, ◌-◌, ◌^◌, ◌<◌, ◌≡◌, refl, ap, sym, ◌∙◌, false, ◌&&◌, ◌||◌, some, arith, length, get_elem?,
  get_or, get_elem?-get_or, bit_or, ◌==◌, if◌then◌else◌, Bool-cases, Option-cases, inl, inr,
}
use ferrite.Storage.Page.{Page, body_at, set_body}
use ferrite.Storage.Page.Body.{body_at-set_body, length-set_body}
use ferrite.Storage.Pager.{Meta, Pager, write_page}
use ferrite.Storage.Clog.{locate, has_bit, is_committed, grow, set_bit, mark_committed}
use ferrite.Storage.Clog.Bits.{has, has-set, set_lt}
use ferrite.Storage.Clog.Directory.{
  Apart, IsSegment, IsPager, IsFreeList-update, segments-update_valid, All-map,
}
use ferrite.Storage.Clog.Growing.{
  segment, byte, bit, All-get_elem?, Distinct-get_elem?, grow-length, grow-IsPager,
  is_committed-grow, next_txn_id-grow,
}

same_location :
    (t u : ℕ) → (u == t) ≡ (segment t == segment u && (byte t == byte u && bit t == bit u))
same_location t u = ground arith

-- One bit set in a segment.
has-set_body :
    (page : Page) (t u : ℕ)
    → IsSegment page
    → has
        (body_at (set_body page (byte t) (bit_or (body_at page (byte t)) (2 ^ bit t))) (byte u))
        (bit u)
      ≡ ((byte t == byte u && bit t == bit u) || has (body_at page (byte u)) (bit u))
has-set_body page t u h =
    rw
      (body_at-set_body page (byte t) (byte u) (bit_or (body_at page (byte t)) (2 ^ bit t))
        (omega (arith, h.size)))
      (elim (Bool-cases (byte t == byte u)) [
        | inl same ↦
            let e : byte t ≡ byte u = ground arith in
            rw same (
              rw e (
                has-set (body_at page (byte u)) (bit t) (bit u) (h.bytes (byte u)) (omega arith)
                  (omega arith)))
        | inr apart ↦ rw apart
      ])

-- The page that `set_bit` writes.
module _ (p : Pager) (t : ℕ) (h : IsPager p)
    (room : (locate t).segment < length p.meta.clog_pages) where
  page_id : ℕ
  page_id = get_or p.meta.clog_pages (locate t).segment 0

  page_id_listed : get_elem? p.meta.clog_pages (locate t).segment ≡ some page_id
  unfolding page_id
  page_id_listed = get_elem?-get_or p.meta.clog_pages (locate t).segment 0 room

  IsSegment-at : IsSegment (p.page_at page_id)
  IsSegment-at =
      All-get_elem? (λ i. IsSegment (p.page_at i)) p.meta.clog_pages (locate t).segment page_id
        h.segments page_id_listed

  -- The page behind an entry of the directory, before and after.
  page_at-set_bit :
      (id : ℕ)
      → (set_bit p (locate t)).page_at id ≡ (
          if page_id == id
          then set_body
              (p.page_at page_id)
              (byte t)
              (bit_or (body_at (p.page_at page_id) (byte t)) (2 ^ bit t))
          else p.page_at id)
  unfolding set_bit write_page page_id locate
  page_at-set_bit id = refl

  listed_page :
      (u id : ℕ)
      → get_elem? p.meta.clog_pages (segment u) ≡ some id
      → (page_id == id) ≡ (segment t == segment u)
  unfolding locate
  listed_page u id e = elim (Bool-cases (segment t == segment u)) [
    | inl same ↦
        let k : segment u ≡ segment t = ground arith in
        rw same (ground (arith, sym e ∙ ap (get_elem? p.meta.clog_pages) k ∙ page_id_listed))
    | inr apart ↦ rw apart (
        ground (
          arith,
          λ (same : page_id ≡ id).
              Distinct-get_elem? p.meta.clog_pages (segment t) (segment u) id h.distinct
                (page_id_listed ∙ ap some same) e,
        ))
  ]

  bit-set_bit :
      (u id : ℕ)
      → get_elem? p.meta.clog_pages (segment u) ≡ some id
      → has (body_at ((set_bit p (locate t)).page_at id) (byte u)) (bit u)
        ≡ (u == t || has (body_at (p.page_at id) (byte u)) (bit u))
  bit-set_bit u id e = elim (Bool-cases (page_id == id)) [
    | inl same ↦
        let k : page_id ≡ id = ground arith in
        rw (page_at-set_bit id, same)
          (has-set_body (p.page_at page_id) t u IsSegment-at
            ∙ rw k (ground (arith, same_location t u, listed_page u id e)))
    | inr apart ↦
        rw (page_at-set_bit id, apart) (ground (arith, same_location t u, listed_page u id e))
  ]

  clog_pages-set_bit : (set_bit p (locate t)).meta ≡ p.meta
  unfolding set_bit write_page
  clog_pages-set_bit = refl

  is_committed-set_bit :
      (u : ℕ) → is_committed (set_bit p (locate t)) u ≡ (u == t || is_committed p u)
  unfolding is_committed locate
  is_committed-set_bit u =
      let q = set_bit p (locate t) in
      let entry = ap (λ (m : Meta). get_elem? m.clog_pages (segment u)) clog_pages-set_bit in
      elim (Option-cases (get_elem? p.meta.clog_pages (segment u))) [
        | inl e ↦
            let differ : (u == t) ≡ false = ground (
              arith,
              λ (s : u ≡ t).
                  sym e ∙ ap (λ x. get_elem? p.meta.clog_pages (segment x)) s ∙ page_id_listed,
            ) in
            ap (has_bit q (locate u)) (entry ∙ e) ∙ sym (rw differ (ap (has_bit p (locate u)) e))
        | inr (id, e) ↦
            ap (has_bit q (locate u)) (entry ∙ e)
            ∙ bit-set_bit u id e
            ∙ ap (λ b. u == t || b) (sym (ap (has_bit p (locate u)) e))
      ]

  free_apart_page : Apart page_id h.frees
  unfolding locate
  free_apart_page =
      All-map (λ i. Apart i p.meta.clog_pages) (λ i. (i == page_id) ≡ false) h.frees
        (λ i a.
          let other =
            All-get_elem? (λ j. (j == i) ≡ false) p.meta.clog_pages (segment t) page_id a
              page_id_listed in
          ground arith)
        h.free_apart

  IsSegment-set : IsSegment (
      set_body
        (p.page_at page_id)
        (byte t)
        (bit_or (body_at (p.page_at page_id) (byte t)) (2 ^ bit t)))
  IsSegment-set = record {
    size = length-set_body (p.page_at page_id) (byte t) _ ∙ IsSegment-at.size;
    bytes = λ i.
        rw
          (body_at-set_body (p.page_at page_id) (byte t) i
            (bit_or (body_at (p.page_at page_id) (byte t)) (2 ^ bit t))
            (omega (arith, IsSegment-at.size)))
          (ground (
            arith,
            IsSegment-at.bytes i,
            set_lt (body_at (p.page_at page_id) (byte t)) (bit t) (IsSegment-at.bytes (byte t))
                (omega arith),
          ));
  }

  IsPager-set_bit : IsPager (set_bit p (locate t))
  unfolding set_bit write_page page_id locate
  IsPager-set_bit = record {
    frees = h.frees;
    chained =
        IsFreeList-update p.page_at p.meta.free_list_head h.frees page_id _ free_apart_page
          h.chained;
    free_used = h.free_used;
    free_distinct = h.free_distinct;
    free_apart = h.free_apart;
    used = h.used;
    segments = segments-update_valid p.page_at p.meta.clog_pages page_id _ IsSegment-set h.segments;
    distinct = h.distinct;
  }

-- What `mark_committed` does to the allocator, the next id and the bits.
pub record Marks (p q : Pager) (t : ℕ) : Type 0 where
  pub committed : (u : ℕ) → is_committed q u ≡ (u == t || is_committed p u)
  pub next_txn_id : q.meta.next_txn_id ≡ p.meta.next_txn_id
  pub valid : IsPager q

-- On a well-formed page file, after mark_committed exactly the transaction and those that had
-- committed before are committed, the page file stays well formed and the next transaction id is
-- unchanged.
pub mark_committed-Marks : (p : Pager) (t : ℕ) → IsPager p → Marks p (mark_committed p t) t
unfolding mark_committed locate
mark_committed-Marks p t h =
    let n = suc (segment t) - length p.meta.clog_pages in
    let grown = grow-IsPager n p h in
    let room : segment t < length (grow n p).meta.clog_pages = omega (arith, grow-length n p h) in
    record {
      committed = λ u.
          is_committed-set_bit (grow n p) t grown room u
          ∙ ap (λ b. u == t || b) (is_committed-grow n p u h);
      next_txn_id =
          ap (λ (m : Meta). m.next_txn_id) (clog_pages-set_bit (grow n p) t grown room)
          ∙ next_txn_id-grow n p h;
      valid = IsPager-set_bit (grow n p) t grown room;
    }
