-- ===== src/Memory/FrameSource/Claims.antt =====
-- A claim of `alloc_phy_addr` of src/memory/physical.rs, in terms of the frames that are held.
use native.Mathlib.Decide.{dec_lt, dec_le}
use os_test.Prelude.{
  ◌-◌, ◌/◌, ◌%◌, le→leb, ℕ, zero, suc, ◌+◌, ◌≡◌, ◌≤◌, ◌<◌, refl, ◌∙◌, true, Bool, List, some, set,
  get_elem?-set_ne, arith,
}
use os_test.Prelude.Outcome.{done}
use os_test.Memory.Addr.{PhyAddr}
use os_test.Memory.FrameSource.Supply.{count_free, count_free-set, IsBelow, InUse}
use os_test.Memory.Physical.{BasicPhysicalAllocator, all_free, mark_used, alloc_phy_addr, is_used}
use os_test.Memory.Physical.Claim.{AreFree}
use os_test.Memory.Physical.Frame.{address}
use os_test.Memory.Physical.Range.{length-mark_used, get_elem?-mark_used_outside}

-- The frames behind the first of a run stay free when the first is marked.
AreFree-set :
    (count index : ℕ) (bits : List Bool)
    → AreFree (suc count) index bits
    → AreFree count (index + 1) (set bits index true)
AreFree-set count index bits free j from to =
    get_elem?-set_ne bits {i = index} {j = j} true (λ same. omega (arith, same, from))
    ∙ free j (omega (arith, from)) (omega (arith, to))

count_free-mark_used :
    (count index : ℕ) (bits : List Bool)
    → AreFree count index bits
    → count_free bits ≡ count_free (mark_used count index bits) + count
unfolding mark_used
count_free-mark_used zero index bits free = omega arith
count_free-mark_used (suc count) index bits free = omega (
  arith,
  count_free-set bits index (free index (omega arith) (omega arith)),
  count_free-mark_used count (index + 1) (set bits index true) (AreFree-set count index bits free),
)

all_free-true :
    (count index : ℕ) (bits : List Bool)
    → AreFree count index bits
    → all_free count index bits ≡ done true
unfolding all_free
all_free-true zero index bits free = refl
all_free-true (suc count) index bits free = rw (free index (omega arith) (omega arith)) (
    all_free-true count (index + 1) bits
      (λ j from to. free j (omega (arith, from)) (omega (arith, to))))

-- The allocator after a claim.
abbrev pub claimed : ℕ → ℕ → BasicPhysicalAllocator → BasicPhysicalAllocator
claimed count index a = record a { bitmap = mark_used count index a.bitmap }

module _ (bound : ℕ) (a : BasicPhysicalAllocator) (good : IsBelow bound a) (count index : ℕ)
    (free : AreFree count index a.bitmap) where
  pub alloc_phy_addr-claimed :
      alloc_phy_addr a (address a index) count
      ≡ done (claimed count index a, some (address a index))
  unfolding alloc_phy_addr
  alloc_phy_addr-claimed =
      let at : (address a index - a.offset) / 4096 ≡ index = omega arith in
      let whole : address a index % 4096 ≡ 0 = omega (arith, good.0.aligned) in
      rw
        (
          whole,
          le→leb a.offset (address a index) (omega arith),
          at,
          all_free-true count index a.bitmap free,
        )
        refl

  pub claimed-IsBelow : IsBelow bound (claimed count index a)
  claimed-IsBelow =
      let same = length-mark_used count index a.bitmap in
      (record { fits = rw same good.0.fits; aligned = good.0.aligned }, rw same good.1)

  pub count_free-claimed : count_free a.bitmap ≡ count_free (claimed count index a).bitmap + count
  count_free-claimed = count_free-mark_used count index a.bitmap free

  pub claimed-InUse : (g : PhyAddr) → InUse a g → InUse (claimed count index a) g
  claimed-InUse g held j same = elim (dec_le index j) [
    | no before ↦ kept j (λ w. before w.0) (held j same)
    | yes from ↦ elim (dec_lt j (index + count)) [
      | no behind ↦ kept j (λ w. behind w.1) (held j same)
      | yes to ↦ absurd (ground (arith, held j same, free j from to))
    ]
  ]
    where
      kept :
          (j : ℕ)
          → ¬ ((index ≤ j) × (j < index + count))
          → is_used a j ≡ true
          → is_used (claimed count index a) j ≡ true
      kept j out was = rw (get_elem?-mark_used_outside count index j a.bitmap out, is_used) was
