-- ===== src/Memory/Physical.antt =====
-- The bitmap allocator of src/memory/physical.rs. The static bitmap is the list `bitmap`, one
-- Boolean for a frame; only one allocator exists, so no one else writes to it.
pub mod Find
pub mod Frame
pub mod Range
pub mod Claim
use os_test.Prelude.{
  ℕ, zero, suc, ◌+◌, ◌*◌, ◌/◌, ◌%◌, ◌≡◌, Bool, true, false, not, Option, none, some, List, [], ◌∷◌,
  ◌==◌, if◌then◌else◌, length, get_elem?, set,
}
use os_test.Prelude.Outcome.{Outcome, done, panic, ◌>>=◌, ◌>>◌, assert, unwrap, add64, sub64, mul64}
use os_test.Memory.Addr.{PhyAddr}

abbrev pub bitmap_size : ℕ
bitmap_size = 8388608

-- frame size in bytes
abbrev pub frame_size : ℕ
frame_size = 4096

pub record BasicPhysicalAllocator : Type 0 where
  pub bitmap : List Bool
  pub offset : PhyAddr
  pub limit : ℕ

-- The static bitmap starts out false in each of its entries.
abbrev pub init : (bitmap : List Bool) → PhyAddr → BasicPhysicalAllocator
init bitmap offset = record { bitmap = bitmap; offset = offset; limit = 0 }

abbrev pub set_offset : PhyAddr → BasicPhysicalAllocator → Outcome BasicPhysicalAllocator
set_offset offset a = assert (offset % frame_size == 0) >> done (record a { offset = offset })

-- `*limit_mut() = limit`
abbrev pub set_limit : ℕ → BasicPhysicalAllocator → BasicPhysicalAllocator
set_limit limit a = record a { limit = limit }

-- `iter().enumerate().find(|b| b == false)`
pub first_free : List Bool → Option ℕ
first_free [] = none
first_free (false ∷ bits) = some 0
first_free (true ∷ bits) = elim (first_free bits) [ none ↦ none | some i ↦ some (suc i) ]

-- The address 0 says that no frame is free.
unfoldable pub allocate_frame : BasicPhysicalAllocator → Outcome (BasicPhysicalAllocator × PhyAddr)
unfolding first_free
allocate_frame a = elim (first_free a.bitmap) [
  | none ↦ done (a, 0)
  | some index ↦ do
    start ← mul64 index frame_size
    addr ← add64 start a.offset
    done (record a { bitmap = set a.bitmap index true }, addr)
]

unfoldable pub free_frame : BasicPhysicalAllocator → PhyAddr → Outcome BasicPhysicalAllocator
free_frame a frame = do
  assert (frame % frame_size == 0)
  distance ← sub64 frame a.offset
  let index = distance / frame_size
  used ← unwrap (get_elem? a.bitmap index)
  assert used
  done (record a { bitmap = set a.bitmap index false })

-- The first loop of `alloc_phy_addr`: are the `count` frames from `index` on all free?
unfoldable pub all_free : (count index : ℕ) → List Bool → Outcome Bool
all_free zero index bits = done true
all_free (suc count) index bits = do
  used ← unwrap (get_elem? bits index)
  if used then done false else all_free count (index + 1) bits

-- The second loop.
unfoldable pub mark_used : (count index : ℕ) → List Bool → List Bool
mark_used zero index bits = bits
mark_used (suc count) index bits = mark_used count (index + 1) (set bits index true)

unfoldable pub alloc_phy_addr :
    BasicPhysicalAllocator
    → PhyAddr
    → (frame_count : ℕ) → Outcome (BasicPhysicalAllocator × Option PhyAddr)
unfolding all_free mark_used
alloc_phy_addr a phy_addr frame_count = do
  assert (phy_addr % frame_size == 0)
  distance ← sub64 phy_addr a.offset
  let index = distance / frame_size
  free ← all_free frame_count index a.bitmap
  if free
      then done (record a { bitmap = mark_used frame_count index a.bitmap }, some phy_addr)
      else done (a, none)

-- What the clients of the allocator see: is the frame with this index in use? Indices past the
-- bitmap are not its to give.
abbrev pub is_used : BasicPhysicalAllocator → ℕ → Bool
is_used a i = elim (get_elem? a.bitmap i) [ none ↦ true | some used ↦ used ]
