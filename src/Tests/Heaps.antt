-- ===== src/Tests/Heaps.antt =====
-- The global allocator of src/memory/allocator.rs over a page allocator that counts.
use os_test.Prelude.{ℕ, ◌+◌, ◌*◌, ◌%◌, ◌≡◌, ◌≤◌, ◌<◌, refl, true, Option, some, arith}
use os_test.Prelude.Outcome.{Outcome, done}
use os_test.Memory.Addr.{is_valid}
use os_test.Memory.Virt.{PageAllocation}
use os_test.Memory.Heap.{Layout, alloc, dealloc, page_amount, next_multiple_of}
use os_test.Memory.Heap.Room.{alloc_room, page_amount_short}

-- The state is the next free page.
abbrev take_pages : ℕ → ℕ → Outcome (ℕ × Option PageAllocation)
take_pages amount next =
    done (next + amount, some (record { first_page = next; page_amount = amount }))

abbrev give_pages : PageAllocation → ℕ → Outcome ℕ
give_pages allocation next = done allocation.first_page

abbrev layout : Layout
layout = record { size = 5000; align = 16 }

abbrev given : PageAllocation
given = record { first_page = 3; page_amount = 2 }

low_is_valid : is_valid (3 * 0x1000) ≡ true
unfolding is_valid
low_is_valid = refl

alloc_room_example :
    (alloc take_pages give_pages layout 3 ≡ done (5, 3 * 0x1000))
    × (3 * 0x1000 % 16 ≡ 0)
    × (3 * 0x1000 + 5000 ≤ (3 + 2) * 0x1000)
    × ((t : ℕ) → dealloc take_pages give_pages (3 * 0x1000) layout t ≡ give_pages given t)
alloc_room_example =
    alloc_room take_pages give_pages layout 3 5 given (omega arith) refl (omega arith) refl refl
      (omega arith) low_is_valid

page_amount_short_example :
    (pages ptr : ℕ) × (page_amount (record { size = 4 * 0x1000; align = 4 * 0x1000 }) ≡ done pages)
    × (next_multiple_of 0x5000 (4 * 0x1000) ≡ done ptr)
    × (0x5000 + pages * 0x1000 < ptr + 4 * 0x1000)
page_amount_short_example =
    page_amount_short 4 0x5000 (omega arith) (omega arith) refl (omega arith)
