-- ===== src/Memory/Paging/Tree/Lookup.antt =====
-- `page_entry` of src/memory/paging.rs against a lookup along the indices of the page.
use os_test.Prelude.{ℕ, ◌≡◌, arith}
use os_test.Memory.Addr.{VirtAddr}
use os_test.Memory.Paging.Page.{Page}
use os_test.Memory.Paging.Table.{Mem, as_page_table_mut, page_entry}
use os_test.Memory.Paging.Tree.{indices, view, lookup, step}

-- For every memory, root and page: what `page_entry` says of a page is what the lookup along the
-- four indices of the page gives, panics included.
pub view-lookup :
    (offset : ℕ) (mem : Mem) (root : VirtAddr) (page : Page)
    → view offset mem root page ≡ lookup offset mem root (indices page)
unfolding view lookup step page_entry as_page_table_mut
view-lookup offset mem root page = ground arith
