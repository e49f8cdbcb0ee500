-- ===== src/Memory/FrameSource/Supply.antt =====
-- What the clients of `PhysicalAllocator` of src/memory/physical.rs rely on: a frame that is handed
-- out was not in use, and stays in use.
use native.Mathlib.Decide.{ℕ_discrete}
use os_test.Prelude.{
  ℕ, suc, ◌<◌, ◌≡◌, ◌+◌, ◌^◌, ◌*◌, ◌%◌, true, false, Bool, List, [], ◌∷◌, get_elem?, set, some,
  length, arith, refl, ap, ◌∙◌, sym, ◌≤◌, zero, ◌≢◌, Option-cases, inl, inr, get_elem?-set_self,
  get_elem?-set_ne, length-set,
}
use os_test.Prelude.Outcome.{done}
use os_test.Memory.Addr.{PhyAddr}
use os_test.Memory.FrameSource.{PhysicalAllocator, basic}
use os_test.Memory.Physical.{
  BasicPhysicalAllocator, frame_size, first_free, allocate_frame, free_frame, is_used,
}
use os_test.Memory.Physical.Find.{
  get_elem?-first_free, get_elem?-first_free-none, lt-length_of_get_elem?,
}
use os_test.Memory.Physical.Frame.{
  address, IsSized, set-IsUpdate, with_frame, allocate_frame-some, free_frame-address,
}

-- `Held`: the frame at the address is not to be handed out; `Given`: it was handed out, and can be
-- given back; `free`: how many frames can be handed out; `bound`: the frames lie below it.
pub record Supply {A : Type 0} (alloc : PhysicalAllocator A) : Type 1 where
  pub IsGood : A → Type 0
  pub Held : A → PhyAddr → Type 0
  pub Given : A → PhyAddr → Type 0
  pub free : A → ℕ
  pub bound : ℕ
  pub small_bound : bound ≤ 2 ^ 52
  pub Given-Held : (a : A) (f : PhyAddr) → Given a f → Held a f
  pub gives :
      (a : A)
      → IsGood a
      → 0 < free a
      → (b : A) × (f : PhyAddr) × (alloc.allocate_frame a ≡ done (b, f))
        × IsGood b
        × (free a ≡ suc (free b))
        × (f % 4096 ≡ 0)
        × (f < bound)
        × (¬ Held a f)
        × Given b f
        × ((g : PhyAddr) → Held a g → Held b g)
        × ((g : PhyAddr) → Given a g → Given b g)
  pub returns :
      (a : A) (f : PhyAddr)
      → IsGood a
      → Given a f
      → (b : A) × (alloc.free_frame a f ≡ done b)
        × IsGood b
        × (free b ≡ suc (free a))
        × ((g : PhyAddr) → g ≢ f → Held a g → Held b g)
        × ((g : PhyAddr) → g ≢ f → Given a g → Given b g)

-- How many bits of a bitmap are not set.
abbrev pub count_free : List Bool → ℕ
count_free [] = 0
count_free (true ∷ bits) = count_free bits
count_free (false ∷ bits) = suc (count_free bits)

pub count_free-set :
    (bits : List Bool) (i : ℕ)
    → get_elem? bits i ≡ some false
    → count_free bits ≡ suc (count_free (set bits i true))
count_free-set [] i there = ground (arith, there)
count_free-set (true ∷ bits) zero there = ground (arith, there)
count_free-set (false ∷ bits) zero there = refl
count_free-set (true ∷ bits) (suc i) there = count_free-set bits i there
count_free-set (false ∷ bits) (suc i) there = ap suc (count_free-set bits i there)

count_free-none :
    (bits : List Bool) → ((i : ℕ) → ¬ (get_elem? bits i ≡ some false)) → count_free bits ≡ 0
count_free-none [] none_free = refl
count_free-none (true ∷ bits) none_free = count_free-none bits (λ i. none_free (suc i))
count_free-none (false ∷ bits) none_free = absurd (none_free 0 refl)

-- The bitmap allocator, with frames below a bound: a frame is held unless it is the frame of a bit that
-- is not set.
abbrev pub IsBelow : ℕ → BasicPhysicalAllocator → Type 0
IsBelow bound a = IsSized a × (length a.bitmap * frame_size + a.offset ≤ bound)

abbrev pub InUse : BasicPhysicalAllocator → PhyAddr → Type 0
InUse a f = (i : ℕ) → f ≡ address a i → is_used a i ≡ true

abbrev pub IsGiven : BasicPhysicalAllocator → PhyAddr → Type 0
IsGiven a f = (i : ℕ) × (f ≡ address a i) × (get_elem? a.bitmap i ≡ some true)

pub IsGiven-InUse : (a : BasicPhysicalAllocator) (f : PhyAddr) → IsGiven a f → InUse a f
IsGiven-InUse a f (i, lies, used) j same =
    let e : j ≡ i = omega (arith, lies, same) in rw (e, used, is_used)

pub basic-gives :
    (bound : ℕ) (a : BasicPhysicalAllocator)
    → IsBelow bound a
    → 0 < count_free a.bitmap
    → (b : BasicPhysicalAllocator) × (f : PhyAddr) × (allocate_frame a ≡ done (b, f))
      × IsBelow bound b
      × (count_free a.bitmap ≡ suc (count_free b.bitmap))
      × (f % 4096 ≡ 0)
      × (f < bound)
      × (¬ InUse a f)
      × IsGiven b f
      × ((g : PhyAddr) → InUse a g → InUse b g)
      × ((g : PhyAddr) → IsGiven a g → IsGiven b g)
basic-gives bound a (sized, small) left_over = elim (Option-cases (first_free a.bitmap)) [
  | inl none_free ↦ absurd (
      omega (arith, count_free-none a.bitmap (λ i. get_elem?-first_free-none a.bitmap i none_free)))
  | inr (i, found) ↦
      let there = get_elem?-first_free a.bitmap i found in
      let below = lt-length_of_get_elem? a.bitmap i there in
      let size : length (set a.bitmap i true) ≡ length a.bitmap = length-set a.bitmap i true in
      let update = set-IsUpdate a i true below in
      (
        with_frame a i true,
        address a i,
        allocate_frame-some a sized i found below,
        (record { fits = rw size sized.fits; aligned = sized.aligned }, rw size small),
        count_free-set a.bitmap i there,
        omega (arith, sized.aligned),
        omega (arith, small, below),
        (λ held. ground (arith, held i refl, there)),
        (i, refl, get_elem?-set_self a.bitmap i true below),
        (λ g held j same. elim (ℕ_discrete j i) [
          | yes e ↦ rw e update.here
          | no ne ↦ update.elsewhere j ne ∙ held j same
        ]),
        (λ g (j, same, was). elim (ℕ_discrete j i) [
          | yes e ↦ (i, rw (same, e) refl, get_elem?-set_self a.bitmap i true below)
          | no ne ↦
              (j, same, get_elem?-set_ne a.bitmap {i = i} {j = j} true (λ e. ne (sym e)) ∙ was)
        ]),
      )
]

count_free-clear :
    (bits : List Bool) (i : ℕ)
    → get_elem? bits i ≡ some true
    → count_free (set bits i false) ≡ suc (count_free bits)
count_free-clear [] i there = ground (arith, there)
count_free-clear (true ∷ bits) zero there = refl
count_free-clear (false ∷ bits) zero there = ground (arith, there)
count_free-clear (true ∷ bits) (suc i) there = count_free-clear bits i there
count_free-clear (false ∷ bits) (suc i) there = ap suc (count_free-clear bits i there)

pub basic-returns :
    (bound : ℕ) (a : BasicPhysicalAllocator) (f : PhyAddr)
    → IsBelow bound a
    → IsGiven a f
    → (b : BasicPhysicalAllocator) × (free_frame a f ≡ done b)
      × IsBelow bound b
      × (count_free b.bitmap ≡ suc (count_free a.bitmap))
      × ((g : PhyAddr) → g ≢ f → InUse a g → InUse b g)
      × ((g : PhyAddr) → g ≢ f → IsGiven a g → IsGiven b g)
basic-returns bound a f (sized, small) (i, lies, used) =
    let size : length (set a.bitmap i false) ≡ length a.bitmap = length-set a.bitmap i false in
    let update = set-IsUpdate a i false (lt-length_of_get_elem? a.bitmap i used) in
    let other : (g : PhyAddr) (j : ℕ) → g ≢ f → g ≡ address a j → j ≢ i =
      λ g j ne same e. ne (rw (same, e, lies) refl) in
    (
      with_frame a i false,
      rw lies (free_frame-address a i true sized.aligned used),
      (record { fits = rw size sized.fits; aligned = sized.aligned }, rw size small),
      count_free-clear a.bitmap i used,
      (λ g ne held j same. update.elsewhere j (other g j ne same) ∙ held j same),
      (λ g ne (j, same, was). (
        j,
        same,
        get_elem?-set_ne a.bitmap {i = i} {j = j} false (λ e. other g j ne same (sym e)) ∙ was,
      )),
    )

abbrev pub basic_supply : (bound : ℕ) → bound ≤ 2 ^ 52 → Supply basic
basic_supply bound small = record {
  IsGood = IsBelow bound;
  Held = InUse;
  Given = IsGiven;
  free = λ a. count_free a.bitmap;
  bound = bound;
  small_bound = small;
  Given-Held = IsGiven-InUse;
  gives = basic-gives bound;
  returns = basic-returns bound;
}
