-- ===== src/Memory/Physical/Range.antt =====
-- `alloc_phy_addr` of src/memory/physical.rs: a run of frames at a given address.
use native.Mathlib.Decide.{ℕ_discrete}
use os_test.Prelude.{
  [], ◌∷◌, ◌∙◌, ℕ, zero, suc, ◌+◌, ◌-◌, ◌/◌, ◌%◌, ◌≤◌, ◌<◌, ◌≡◌, refl, Bool, true, false, Option,
  none, some, List, arith, le→leb, get_elem?, length, set, get_elem?-set_self, get_elem?-set_ne,
  length-set,
}
use os_test.Prelude.Outcome.{done}
use os_test.Memory.Addr.{PhyAddr}
use os_test.Memory.Physical.{
  BasicPhysicalAllocator, frame_size, all_free, mark_used, alloc_phy_addr, is_used,
}
use os_test.Memory.Physical.Frame.{address, IsSized}

abbrev Within : ℕ → ℕ → ℕ → Type 0
Within index count j = (index ≤ j) × (j < index + count)

-- The scan says whether all of the frames are free.
pub data Scanned (count index : ℕ) (bits : List Bool) : Bool → Type 0 where
  free :
      ((j : ℕ) → Within index count j → get_elem? bits j ≡ some false)
      → Scanned count index bits true
  used :
      (j : ℕ) → Within index count j → get_elem? bits j ≡ some true → Scanned count index bits false

get_elem?_of_lt {ℓ} :
    {A : Type ℓ} (xs : List A) (i : ℕ) → i < length xs → (x : A) × (get_elem? xs i ≡ some x)
get_elem?_of_lt [] i h = absurd (omega arith)
get_elem?_of_lt (x ∷ xs) zero h = (x, refl)
get_elem?_of_lt (x ∷ xs) (suc i) h = get_elem?_of_lt xs i (omega arith)

Scanned-free_cons :
    (count index j : ℕ) (bits : List Bool)
    → get_elem? bits index ≡ some false
    → ((j : ℕ) → Within (index + 1) count j → get_elem? bits j ≡ some false)
    → Within index (suc count) j
    → get_elem? bits j ≡ some false
Scanned-free_cons count index j bits e all w = elim (ℕ_discrete j index) [
  | yes same ↦ rw same e
  | no ne ↦ all j (omega arith)
]

all_free-Scanned :
    (count index : ℕ) (bits : List Bool)
    → index + count ≤ length bits
    → (b : Bool) × (all_free count index bits ≡ done b) × Scanned count index bits b
unfolding all_free
all_free-Scanned zero index bits h = (true, refl, free (λ j w. absurd (omega arith)))
all_free-Scanned (suc count) index bits h =
    step (get_elem?_of_lt bits index (omega arith))
      (all_free-Scanned count (index + 1) bits (omega arith))
  where
    step :
        (u : Bool) × (get_elem? bits index ≡ some u)
        → (b : Bool) × (all_free count (index + 1) bits ≡ done b) × Scanned count (index + 1) bits b
        → (b : Bool) × (all_free (suc count) index bits ≡ done b) × Scanned (suc count) index bits b
    step (true, e) rest = (false, rw (e, all_free), used index (omega arith) e)
    step (false, e) (true, r, free all) =
        (true, rw (e, all_free) r, free (λ j w. Scanned-free_cons count index j bits e all w))
    step (false, e) (false, r, used j w u) = (false, rw (e, all_free) r, used j (omega arith) u)

pub length-mark_used :
    (count index : ℕ) (bits : List Bool) → length (mark_used count index bits) ≡ length bits
unfolding mark_used
length-mark_used zero index bits = refl
length-mark_used (suc count) index bits =
    length-mark_used count (index + 1) (set bits index true) ∙ length-set bits index true

pub get_elem?-mark_used_outside :
    (count index j : ℕ) (bits : List Bool)
    → ¬ Within index count j
    → get_elem? (mark_used count index bits) j ≡ get_elem? bits j
unfolding mark_used
get_elem?-mark_used_outside zero index j bits w = refl
get_elem?-mark_used_outside (suc count) index j bits w =
    get_elem?-mark_used_outside count (index + 1) j (set bits index true) (λ v. w (omega arith))
    ∙ get_elem?-set_ne bits true (λ e. w (omega arith))

pub get_elem?-mark_used_inside :
    (count index j : ℕ) (bits : List Bool)
    → Within index count j
    → index + count ≤ length bits
    → get_elem? (mark_used count index bits) j ≡ some true
unfolding mark_used
get_elem?-mark_used_inside zero index j bits w h = absurd (omega arith)
get_elem?-mark_used_inside (suc count) index j bits w h = elim (ℕ_discrete j index) [
  | yes e ↦ rw e (
      get_elem?-mark_used_outside count (index + 1) index (set bits index true) (λ v. omega arith)
      ∙ get_elem?-set_self bits index true (omega arith))
  | no ne ↦
      get_elem?-mark_used_inside count (index + 1) j (set bits index true) (omega arith)
        (rw length-set (omega arith))
]

-- What `alloc_phy_addr` promises for the frames `index` to `index + count - 1`.
pub data Claimed (a b : BasicPhysicalAllocator) (addr : PhyAddr) (index count : ℕ)
    : Option PhyAddr → Type 0 where
  claimed :
      ((j : ℕ) → Within index count j → is_used a j ≡ false)
      → ((j : ℕ) → Within index count j → is_used b j ≡ true)
      → ((j : ℕ) → ¬ Within index count j → is_used b j ≡ is_used a j)
      → b.offset ≡ a.offset
      → length b.bitmap ≡ length a.bitmap
      → Claimed a b addr index count (some addr)
  taken :
      (j : ℕ)
      → Within index count j
      → is_used a j ≡ true
      → b ≡ a
      → Claimed a b addr index count none

-- For an allocator whose first frame is aligned and whose frames have addresses below 2^64: at
-- the address of a frame, and with all `count` frames from there inside the bitmap,
-- `alloc_phy_addr` does not panic. Either all of the frames were free, and it gives the address
-- and marks these frames and no others; or one was in use, and it gives `none` and changes
-- nothing.
pub alloc_phy_addr-Claimed :
    (a : BasicPhysicalAllocator) (index count : ℕ)
    → IsSized a
    → index + count ≤ length a.bitmap
    → (b : BasicPhysicalAllocator) × (r : Option PhyAddr) × (alloc_phy_addr a
          (address a index)
          count
        ≡ done (b, r))
      × Claimed a b (address a index) index count r
unfolding alloc_phy_addr
alloc_phy_addr-Claimed a index count sized h = split (all_free-Scanned count index a.bitmap h)
  where
    whole : address a index % frame_size ≡ 0
    whole = omega (arith, sized.aligned)

    above : a.offset ≤ address a index
    above = omega arith

    at : (address a index - a.offset) / frame_size ≡ index
    at = omega arith

    split :
        (f : Bool) × (all_free count index a.bitmap ≡ done f) × Scanned count index a.bitmap f
        → (b : BasicPhysicalAllocator) × (r : Option PhyAddr) × (alloc_phy_addr a
              (address a index)
              count
            ≡ done (b, r))
          × Claimed a b (address a index) index count r
    split (true, e, free all) = (
      record a { bitmap = mark_used count index a.bitmap },
      some (address a index),
      rw (whole, le→leb _ _ above, at, e),
      claimed (λ j w. rw (all j w, is_used))
          (λ j w. rw (get_elem?-mark_used_inside count index j a.bitmap w h, is_used))
          (λ j w. rw (get_elem?-mark_used_outside count index j a.bitmap w, is_used)) refl
          (length-mark_used count index a.bitmap),
    )
    split (false, e, used j w u) =
        (a, none, rw (whole, le→leb _ _ above, at, e), taken j w (rw (u, is_used)) refl)
