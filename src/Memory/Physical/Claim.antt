-- ===== src/Memory/Physical/Claim.antt =====
-- What a claim of `alloc_phy_addr` of src/memory/physical.rs says, read from its answer.
use os_test.Prelude.{
  ℕ, zero, suc, ◌+◌, ◌-◌, ◌/◌, ◌%◌, ◌≤◌, ◌<◌, ◌≡◌, refl, ap, ◌∙◌, inl, inr, Bool, true, false, none,
  some, List, get_elem?, set, length, get_elem?-set_self, ◌==◌, arith, Bool-cases, Option-cases,
  set-set_ne, set-set_back,
}
use os_test.Prelude.Outcome.{done, Outcome-cases}
use os_test.Memory.Addr.{PhyAddr}
use os_test.Memory.Physical.{
  BasicPhysicalAllocator, frame_size, all_free, mark_used, alloc_phy_addr,
}
use os_test.Memory.Physical.Frame.{address}
use os_test.Memory.Physical.Range.{get_elem?-mark_used_outside}

-- The `count` frames from `index` on are in the bitmap and free.
abbrev pub AreFree : (count index : ℕ) → List Bool → Type 0
AreFree count index bits = (j : ℕ) → index ≤ j → j < index + count → get_elem? bits j ≡ some false

all_free-AreFree :
    (count index : ℕ) (bits : List Bool)
    → all_free count index bits ≡ done true
    → AreFree count index bits
unfolding all_free
all_free-AreFree zero index bits h j from below = absurd (omega (arith, from, below))
all_free-AreFree (suc count) index bits h j from below =
    elim (Option-cases (get_elem? bits index)) [
      | inl outside ↦ absurd (ground (arith, h, outside))
      | inr (used, there) ↦ elim (Bool-cases used) [
        | inl taken ↦ absurd (ground (arith, h, there, taken))
        | inr free ↦ elim (Bool-cases (j == index)) [
          | inl same ↦ let at : j ≡ index = ground (arith, same) in rw at (there ∙ ap some free)
          | inr differs ↦
              all_free-AreFree count (index + 1) bits (ground (arith, h, there, free)) j
                (ground (arith, from, differs)) (omega (arith, below))
        ]
      ]
    ]

-- A claim that was granted.
pub record Granted (a b : BasicPhysicalAllocator) (addr : PhyAddr) (count : ℕ) (frame : PhyAddr)
    : Type 0 where
  pub index : ℕ
  pub located : addr ≡ address a index
  pub same : frame ≡ addr
  pub free : AreFree count index a.bitmap
  pub marked : b ≡ record a { bitmap = mark_used count index a.bitmap }

pub alloc_phy_addr-Granted :
    (a b : BasicPhysicalAllocator) (addr : PhyAddr) (count : ℕ) (frame : PhyAddr)
    → a.offset % frame_size ≡ 0
    → alloc_phy_addr a addr count ≡ done (b, some frame)
    → Granted a b addr count frame
unfolding alloc_phy_addr
alloc_phy_addr-Granted a b addr count frame aligned h =
    elim (Outcome-cases (all_free count ((addr - a.offset) / frame_size) a.bitmap)) [
      | inr panics ↦ absurd (ground (arith, h, panics))
      | inl (free, scan) ↦ elim (Bool-cases free) [
        | inr taken ↦ absurd (ground (arith, h, scan, taken))
        | inl granted ↦
            let whole : addr % frame_size ≡ 0 = ground (arith, h) in
            let above : a.offset ≤ addr = ground (arith, h) in
            record {
              index = (addr - a.offset) / frame_size;
              located = omega (arith, whole, above, aligned);
              same = ground (arith, h, scan, granted);
              free =
                  all_free-AreFree count ((addr - a.offset) / frame_size) a.bitmap
                    (scan ∙ ap done granted);
              marked = ground (arith, h, scan, granted);
            }
      ]
    ]

-- A claim that was refused.
pub alloc_phy_addr-none :
    (a b : BasicPhysicalAllocator) (addr : PhyAddr) (count : ℕ)
    → alloc_phy_addr a addr count ≡ done (b, none)
    → b ≡ a
unfolding alloc_phy_addr
alloc_phy_addr-none a b addr count h =
    elim (Outcome-cases (all_free count ((addr - a.offset) / frame_size) a.bitmap)) [
      | inr panics ↦ absurd (ground (arith, h, panics))
      | inl (free, scan) ↦ ground (arith, h, scan)
    ]

set-mark_used :
    (count index i : ℕ) (bits : List Bool) (v : Bool)
    → i < index
    → set (mark_used count index bits) i v ≡ mark_used count index (set bits i v)
unfolding mark_used
set-mark_used zero index i bits v below = refl
set-mark_used (suc count) index i bits v below =
    set-mark_used count (index + 1) i (set bits index true) v (omega (arith, below))
    ∙ ap (mark_used count (index + 1))
        (set-set_ne bits i index v true (λ same. omega (arith, below, same)))

-- Freeing the first of the frames that were marked leaves the others marked.
pub set-mark_used_first :
    (count index : ℕ) (bits : List Bool)
    → get_elem? bits index ≡ some false
    → set (mark_used (suc count) index bits) index false ≡ mark_used count (index + 1) bits
unfolding mark_used
set-mark_used_first count index bits free =
    set-mark_used count (index + 1) index (set bits index true) false (omega arith)
    ∙ ap (mark_used count (index + 1)) (set-set_back bits index true false free)

pub get_elem?-mark_used_first :
    (count index : ℕ) (bits : List Bool)
    → index < length bits
    → get_elem? (mark_used (suc count) index bits) index ≡ some true
unfolding mark_used
get_elem?-mark_used_first count index bits below =
    get_elem?-mark_used_outside count (index + 1) index (set bits index true)
      (λ within. omega (arith, within.0))
    ∙ get_elem?-set_self bits index true below
