-- ===== src/Tests/Frames.antt =====
-- The frame allocator of src/memory/physical.rs on a bitmap of four frames.
use os_test.Prelude.{ℕ, zero, suc, ◌*◌, ◌≡◌, ◌≤◌, ◌<◌, refl, true, false, Option, [], ◌∷◌, arith}
use os_test.Prelude.Outcome.{done, panic}
use os_test.Memory.Addr.{PhyAddr}
use os_test.Memory.Physical.{
  BasicPhysicalAllocator, frame_size, allocate_frame, free_frame, alloc_phy_addr, is_used,
}
use os_test.Memory.Physical.Frame.{
  IsSized, Allocated, Freed, address, allocate_frame-Allocated, free_frame-Freed,
  allocate_frame_past_limit,
}
use os_test.Memory.Physical.Range.{Claimed, alloc_phy_addr-Claimed}

-- The frames 0 and 2 are in use, and the region ends behind the first frame.
abbrev some_used : BasicPhysicalAllocator
some_used = record { bitmap = true ∷ false ∷ true ∷ false ∷ []; offset = 0x10000; limit = 0x1000 }

abbrev one_more : BasicPhysicalAllocator
one_more = record { bitmap = true ∷ true ∷ true ∷ false ∷ []; offset = 0x10000; limit = 0x1000 }

abbrev last_two : BasicPhysicalAllocator
last_two = record { bitmap = true ∷ true ∷ false ∷ false ∷ []; offset = 0x10000; limit = 0x1000 }

some_used-IsSized : IsSized some_used
some_used-IsSized = record { fits = omega arith; aligned = refl }

last_two-IsSized : IsSized last_two
last_two-IsSized = record { fits = omega arith; aligned = refl }

allocate : allocate_frame some_used ≡ done (one_more, 0x11000)
unfolding allocate_frame
allocate = refl

free : free_frame one_more 0x11000 ≡ done some_used
unfolding free_frame
free = refl

free_twice : free_frame some_used 0x11000 ≡ panic
unfolding free_frame
free_twice = refl

one_more-IsSized : IsSized one_more
one_more-IsSized = record { fits = omega arith; aligned = refl }

allocate_frame-Allocated_example :
    (b : BasicPhysicalAllocator) × (addr : PhyAddr) × (allocate_frame some_used ≡ done (b, addr))
    × Allocated some_used b addr
allocate_frame-Allocated_example = allocate_frame-Allocated some_used some_used-IsSized

free_frame-Freed_example : Freed one_more some_used 0x11000 × (free_frame some_used 0x11000 ≡ panic)
free_frame-Freed_example = free_frame-Freed one_more some_used 0x11000 one_more-IsSized free

alloc_phy_addr-Claimed_example :
    (b : BasicPhysicalAllocator) × (r : Option PhyAddr) × (alloc_phy_addr last_two
        (address last_two 2)
        2
      ≡ done (b, r))
    × Claimed last_two b (address last_two 2) 2 2 r
alloc_phy_addr-Claimed_example = alloc_phy_addr-Claimed last_two 2 2 last_two-IsSized (omega arith)

region_used : (j : ℕ) → j * frame_size < some_used.limit → is_used some_used j ≡ true
region_used zero h = refl
region_used (suc j) h = absurd (omega arith)

allocate_frame_past_limit_example :
    (b : BasicPhysicalAllocator) × (addr : PhyAddr) × (allocate_frame some_used ≡ done (b, addr))
    × (0x11000 ≤ addr)
allocate_frame_past_limit_example =
    allocate_frame_past_limit some_used 1 some_used-IsSized region_used refl
