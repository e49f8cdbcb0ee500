-- ===== src/Memory/Paging/Entry/Flag.antt =====
-- The constants of `PageTableEntryFlags` of src/memory/paging.rs.
use os_test.Prelude.{ℕ, ◌<<<◌}

abbrev pub present : ℕ
present = 1

abbrev pub writable : ℕ
writable = 1 <<< 1

abbrev pub user_allowed : ℕ
user_allowed = 1 <<< 2

abbrev pub cache_write_through : ℕ
cache_write_through = 1 <<< 3

abbrev pub no_cache : ℕ
no_cache = 1 <<< 4

abbrev pub accessed : ℕ
accessed = 1 <<< 5

abbrev pub dirty : ℕ
dirty = 1 <<< 6

abbrev pub huge_page : ℕ
huge_page = 1 <<< 7

abbrev pub global : ℕ
global = 1 <<< 8

abbrev pub no_execute : ℕ
no_execute = 1 <<< 63
