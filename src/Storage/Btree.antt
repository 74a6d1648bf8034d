-- ===== src/Storage/Btree.antt =====
-- `create` of ferrite-storage/src/btree.rs.
use ferrite.Prelude.{ℕ}
use ferrite.Storage.Page
use ferrite.Storage.Page.{PageKind, no_page}
use ferrite.Storage.Pager.{Pager, alloc_page, write_page}

-- The root of an empty tree.
unfoldable pub create : Pager → ℕ × Pager
unfolding alloc_page write_page
create p =
    let (id, q) = alloc_page p PageKind.leaf in
    (id, write_page q id (Page.set_extra (q.page_at id) no_page))
