-- ===== src/Memory/Physical/Frame.antt =====
-- `allocate_frame` and `free_frame` of src/memory/physical.rs, against a set of used frames.
use os_test.Prelude.{
  ℕ, ◌+◌, ◌-◌, ◌*◌, ◌/◌, ◌%◌, ◌^◌, ◌≤◌, ◌<◌, ◌≡◌, refl, sym, ◌≢◌, inl, inr, Bool, true, false, some,
  arith, Option-cases, le→leb, ap, ◌∙◌, get_elem?, length, set, get_elem?-set_self,
  get_elem?-set_ne, length-set, set-set_back,
}
use os_test.Prelude.Outcome.{done, panic, assert, ◌>>◌}
use os_test.Memory.Addr.{PhyAddr}
use os_test.Memory.Physical.{
  BasicPhysicalAllocator, frame_size, first_free, allocate_frame, free_frame, is_used,
}
use os_test.Memory.Physical.Find.{
  get_elem?-first_free, get_elem?-first_free_before, get_elem?-first_free-none,
  lt-length_of_get_elem?,
}

-- The address of the frame with index `i`.
abbrev pub address : BasicPhysicalAllocator → ℕ → PhyAddr
address a i = i * frame_size + a.offset

-- Every frame has an address below 2 ^ 64, and the first is aligned.
pub record IsSized (a : BasicPhysicalAllocator) : Type 0 where
  pub fits : length a.bitmap * frame_size + a.offset < 2 ^ 64
  pub aligned : a.offset % frame_size ≡ 0

-- `b` is `a` with the frame `i` set to `used`, and nothing else changed.
pub record IsUpdate (a b : BasicPhysicalAllocator) (i : ℕ) (used : Bool) : Type 0 where
  pub here : is_used b i ≡ used
  pub elsewhere : (j : ℕ) → j ≢ i → is_used b j ≡ is_used a j
  pub offset : b.offset ≡ a.offset
  pub limit : b.limit ≡ a.limit
  pub size : length b.bitmap ≡ length a.bitmap

pub set-IsUpdate :
    (a : BasicPhysicalAllocator) (i : ℕ) (used : Bool)
    → i < length a.bitmap
    → IsUpdate a (record a { bitmap = set a.bitmap i used }) i used
set-IsUpdate a i used h = record {
  here = rw (get_elem?-set_self a.bitmap i used h, is_used);
  elsewhere =
      λ j ne. rw (get_elem?-set_ne a.bitmap {i = i} {j = j} used (λ e. ne (sym e)), is_used);
  offset = refl;
  limit = refl;
  size = length-set a.bitmap i used;
}

-- `allocate_frame` took the first free frame, or there was none and it gave the address 0.
pub data Allocated (a b : BasicPhysicalAllocator) (addr : PhyAddr) : Type 0 where
  frame :
      (i : ℕ)
      → addr ≡ address a i
      → is_used a i ≡ false
      → ((j : ℕ) → j < i → is_used a j ≡ true)
      → IsUpdate a b i true
      → Allocated a b addr
  full : addr ≡ 0 → b ≡ a → ((j : ℕ) → is_used a j ≡ true) → Allocated a b addr

abbrev pub with_frame : BasicPhysicalAllocator → ℕ → Bool → BasicPhysicalAllocator
with_frame a i used = record a { bitmap = set a.bitmap i used }

module _ (a : BasicPhysicalAllocator) (sized : IsSized a) (i : ℕ) where
  pub allocate_frame-some :
      first_free a.bitmap ≡ some i
      → i < length a.bitmap
      → allocate_frame a ≡ done (with_frame a i true, address a i)
  unfolding allocate_frame
  allocate_frame-some found below = rw (found, allocate_frame) (ground arith)

  Allocated-some :
      first_free a.bitmap ≡ some i
      → get_elem? a.bitmap i ≡ some false
      → Allocated a (with_frame a i true) (address a i)
  Allocated-some found free =
      frame i refl (rw (free, is_used))
        (λ j lt. rw (get_elem?-first_free_before a.bitmap i j found lt, is_used))
        (set-IsUpdate a i true (lt-length_of_get_elem? a.bitmap i free))

-- For an allocator whose first frame is aligned and whose frames have addresses below 2^64:
-- `allocate_frame` does not panic. It either takes the free frame with the lowest index, gives
-- its address and marks it and no other as used, or, where every frame is in use, gives the
-- address 0 and changes nothing.
pub allocate_frame-Allocated :
    (a : BasicPhysicalAllocator)
    → IsSized a
    → (b : BasicPhysicalAllocator) × (addr : PhyAddr) × (allocate_frame a ≡ done (b, addr))
      × Allocated a b addr
unfolding allocate_frame
allocate_frame-Allocated a sized = elim (Option-cases (first_free a.bitmap)) [
  | inl none_free ↦ (
    a,
    0,
    rw (none_free, allocate_frame),
    full refl refl (λ j. ground (arith, get_elem?-first_free-none a.bitmap j none_free)),
  )
  | inr (i, found) ↦
      let free = get_elem?-first_free a.bitmap i found in
      (
        with_frame a i true,
        address a i,
        allocate_frame-some a sized i found (lt-length_of_get_elem? a.bitmap i free),
        Allocated-some a sized i found free,
      )
]

-- `free_frame` at the address of a frame of the bitmap.
pub free_frame-address :
    (a : BasicPhysicalAllocator) (i : ℕ) (used : Bool)
    → a.offset % frame_size ≡ 0
    → get_elem? a.bitmap i ≡ some used
    → free_frame a (address a i) ≡ (assert used >> done (with_frame a i false))
unfolding free_frame
free_frame-address a i used aligned there =
    let index : (address a i - a.offset) / frame_size ≡ i = omega arith in
    let whole : address a i % frame_size ≡ 0 = omega arith in
    let above : a.offset ≤ address a i = omega arith in rw (whole, le→leb _ _ above, index, there)

-- For an allocator whose first frame is aligned and whose frames have addresses below 2^64:
-- freeing the frame that was just allocated gives the allocator back as it was, so long as a
-- frame was free.
pub free_frame-allocate_frame :
    (a b : BasicPhysicalAllocator) (addr : PhyAddr) (i : ℕ)
    → IsSized a
    → is_used a i ≡ false
    → allocate_frame a ≡ done (b, addr)
    → free_frame b addr ≡ done a
unfolding allocate_frame
free_frame-allocate_frame a b addr i sized free h = elim (Option-cases (first_free a.bitmap)) [
  | inl none_free ↦ absurd (ground (arith, get_elem?-first_free-none a.bitmap i none_free))
  | inr (k, found) ↦
      let there = get_elem?-first_free a.bitmap k found in
      let below = lt-length_of_get_elem? a.bitmap k there in
      let taken : free_frame (with_frame a k true) (address a k) ≡ done a =
        free_frame-address (with_frame a k true) k true sized.aligned
          (get_elem?-set_self a.bitmap k true below)
        ∙ ap (λ bits. done (record a { bitmap = bits }))
            (set-set_back a.bitmap k true false there) in
      ground (arith, taken, allocate_frame-some a sized k found below)
]

free_frame_guards :
    (a b : BasicPhysicalAllocator) (addr : PhyAddr)
    → free_frame a addr ≡ done b
    → let i = (addr - a.offset) / frame_size in
      (addr % frame_size ≡ 0)
      × (a.offset ≤ addr)
      × (get_elem? a.bitmap i ≡ some true)
      × (b ≡ with_frame a i false)
unfolding free_frame
free_frame_guards a b addr h = ground arith

-- What `free_frame` demands of an address, and what it does: the address is that of a frame in
-- use, and this frame and no other is free afterwards.
pub record Freed (a b : BasicPhysicalAllocator) (addr : PhyAddr) : Type 0 where
  pub index : ℕ
  pub located : addr ≡ address a index
  pub was_used : get_elem? a.bitmap index ≡ some true
  pub update : IsUpdate a b index false

-- For an allocator whose first frame is aligned and whose frames have addresses below 2^64:
-- where `free_frame` returns, the address was that of a used frame of the bitmap, this frame is
-- free afterwards, and no other frame changed; freeing the same address once more panics.
pub free_frame-Freed :
    (a b : BasicPhysicalAllocator) (addr : PhyAddr)
    → IsSized a
    → free_frame a addr ≡ done b
    → Freed a b addr × (free_frame b addr ≡ panic)
free_frame-Freed a b addr sized h =
    let i = (addr - a.offset) / frame_size in
    let (whole, above, used, result) = free_frame_guards a b addr h in
    let below = lt-length_of_get_elem? a.bitmap i used in
    let located : addr ≡ address a i = omega (arith, sized.aligned) in
    let update = set-IsUpdate a i false below in
    let again : free_frame (with_frame a i false) (address a i) ≡ panic =
      free_frame-address (with_frame a i false) i false sized.aligned
        (get_elem?-set_self a.bitmap i false below) in
    (record { index = i; located = located; was_used = used; update = rw result update }, cc again)

-- For an allocator whose first frame is aligned and whose frames have addresses below 2^64:
-- `set_limit` does not bound what `allocate_frame` gives. Where every frame below the limit is
-- in use and some frame of the bitmap is free, the address lies at or above the end of the
-- region.
pub allocate_frame_past_limit :
    (a : BasicPhysicalAllocator) (i : ℕ)
    → IsSized a
    → ((j : ℕ) → j * frame_size < a.limit → is_used a j ≡ true)
    → is_used a i ≡ false
    → (b : BasicPhysicalAllocator) × (addr : PhyAddr) × (allocate_frame a ≡ done (b, addr))
      × (a.offset + a.limit ≤ addr)
allocate_frame_past_limit a i sized region free = past (allocate_frame-Allocated a sized)
  where
    past :
        ((b : BasicPhysicalAllocator) × (addr : PhyAddr) × (allocate_frame a ≡ done (b, addr))
          × Allocated a b addr)
        → (b : BasicPhysicalAllocator) × (addr : PhyAddr) × (allocate_frame a ≡ done (b, addr))
          × (a.offset + a.limit ≤ addr)
    past (b, addr, returns, frame k located was_free _ _) =
        (b, addr, returns, ground (arith, region k))
    past (b, addr, returns, full _ _ used) = absurd (ground (arith, used i))
