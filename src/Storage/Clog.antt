-- ===== src/Storage/Clog.antt =====
-- ferrite-storage/src/clog.rs: one bit for each transaction id, set when it committed.
pub mod Bits
pub mod Directory
pub mod Growing
pub mod Marking
mod Examples
use ferrite.Prelude.{
  ℕ, zero, suc, ◌+◌, ◌-◌, ◌*◌, ◌/◌, ◌%◌, ◌^◌, bit_and, bit_or, Bool, true, false, not, Option, none,
  some, List, [], ◌∷◌, ◌++◌, length, get_elem?, get_or, ◌==◌, if◌then◌else◌,
}
use ferrite.Storage.Page
use ferrite.Storage.Page.{PageKind, page_size, header_size}
use ferrite.Storage.Pager
use ferrite.Storage.Pager.{Pager}

abbrev pub txns_per_clog_page : ℕ
txns_per_clog_page = (page_size - header_size) * 8

-- The segment, the byte in its page's body, and the mask in that byte.
pub record Location : Type 0 where
  pub segment : ℕ
  pub byte : ℕ
  pub mask : ℕ

pub locate : ℕ → Location
locate txn =
    let bit = txn % txns_per_clog_page in
    record { segment = txn / txns_per_clog_page; byte = bit / 8; mask = 2 ^ (bit % 8) }

has_bit : Pager → Location → Option ℕ → Bool
has_bit p l none = false
has_bit p l (some page_id) = not (bit_and (Page.body_at (p.page_at page_id) l.byte) l.mask == 0)

unfoldable pub is_committed : Pager → ℕ → Bool
unfolding has_bit
is_committed p txn = let l = locate txn in has_bit p l (get_elem? p.meta.clog_pages l.segment)

-- `alloc_page` of a segment, pushed on the directory.
pub push_segment : Pager → Pager
push_segment p =
    let (page_id, q) = Pager.alloc_page p PageKind.clog in
    record q { meta = record q.meta { clog_pages = q.meta.clog_pages ++ page_id ∷ [] } }

-- The `while` loop, on the number of segments that are missing.
pub grow : ℕ → Pager → Pager
grow zero p = p
grow (suc missing) p = grow missing (push_segment p)

set_bit : Pager → Location → Pager
set_bit p l =
    let page_id = get_or p.meta.clog_pages l.segment 0 in
    let page = p.page_at page_id in
    Pager.write_page p page_id
      (Page.set_body page l.byte (bit_or (Page.body_at page l.byte) l.mask))

pub mark_committed : Pager → ℕ → Pager
unfolding grow push_segment set_bit
mark_committed p txn =
    let l = locate txn in set_bit (grow (suc l.segment - length p.meta.clog_pages) p) l
