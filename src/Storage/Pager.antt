-- ===== src/Storage/Pager.antt =====
-- ferrite-storage/src/pager.rs: the meta record and the page allocator. The cache and the data
-- file together are one map from page ids to pages: a read finds the last page that was written.
-- Their calls succeed.
use ferrite.Prelude.{ℕ, ◌+◌, List, [], ◌==◌, if◌then◌else◌}
use ferrite.Storage.Page
use ferrite.Storage.Page.{Page, PageKind, no_page}

pub record Meta : Type 0 where
  pub page_count : ℕ
  pub free_list_head : ℕ
  pub next_txn_id : ℕ
  pub catalog_root : ℕ
  pub clog_pages : List ℕ

unfoldable pub fresh : Meta
fresh = record {
  page_count = 1;
  free_list_head = no_page;
  next_txn_id = 1;
  catalog_root = no_page;
  clog_pages = [];
}

pub record Pager : Type 0 where
  pub meta : Meta
  pub page_at : ℕ → Page

abbrev pub update : (ℕ → Page) → ℕ → Page → ℕ → Page
update f i p j = if i == j then p else f j

-- `with_page_mut` and `write_page`.
unfoldable pub write_page : Pager → ℕ → Page → Pager
write_page p page_id page = record p { page_at = update p.page_at page_id page }

-- `alloc_page` takes the head of the free list, or the next new page.
unfoldable pub alloc_page : Pager → PageKind → ℕ × Pager
unfolding write_page
alloc_page p kind =
    let head = p.meta.free_list_head in
    if head == no_page
    then (
      p.meta.page_count,
      write_page (record p { meta = record p.meta { page_count = p.meta.page_count + 1 } })
          p.meta.page_count (Page.new kind),
    )
    else (
      head,
      write_page
          (record p { meta = record p.meta { free_list_head = Page.extra (p.page_at head) } }) head
          (Page.new kind),
    )

abbrev pub free_page : Pager → ℕ → Pager
unfolding write_page
free_page p page_id =
    let q = write_page p page_id (Page.set_extra (Page.new PageKind.free) p.meta.free_list_head) in
    record q { meta = record q.meta { free_list_head = page_id } }
