-- ===== src/Tests/Pages.antt =====
-- Pages, their entries and the search of src/memory/paging.rs.
use os_test.Prelude.{ℕ, ◌^◌, ◌≡◌, ◌<◌, refl, Bool, Option, arith, ltb}
use os_test.Prelude.Outcome.{Outcome, done}
use os_test.Memory.Paging.Entry.{addr, flags, set_addr}
use os_test.Memory.Paging.Entry.Fields.{set_addr_fields}
use os_test.Memory.Paging.Iter.{PageIter}
use os_test.Memory.Paging.Search.{find_free_pages}
use os_test.Memory.Paging.Search.FirstFit.{FirstFit, find_free_pages-FirstFit}

-- The pages below 3 are mapped.
abbrev mapped : ℕ → Bool
mapped p = ltb p 3

abbrev answer : ℕ → Outcome Bool
answer p = done (mapped p)

find_free_pages-FirstFit_example :
    (r : Option PageIter) × (find_free_pages answer 1 2 ≡ done r) × FirstFit mapped 1 2 r
find_free_pages-FirstFit_example =
    find_free_pages-FirstFit answer mapped (λ p. refl) 1 2 (omega arith) (omega arith)

set_addr_fields_example :
    (entry : ℕ) × (set_addr 0x5000 3 ≡ done entry)
    × (addr entry ≡ 0x5000)
    × (flags entry ≡ 3)
    × (entry < 2 ^ 64)
set_addr_fields_example = set_addr_fields 0x5000 3 (refl, omega arith) (omega arith, refl)
