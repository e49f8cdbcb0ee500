-- ===== src/Memory/Physical/Find.antt =====
-- The search for a free frame in `allocate_frame` of src/memory/physical.rs.
use os_test.Prelude.{
  ℕ, zero, suc, ◌<◌, ◌≡◌, refl, ◌≢◌, Bool, true, false, none, some, List, [], ◌∷◌, arith, get_elem?,
  length,
}
use os_test.Memory.Physical.{first_free}

-- The frame that is found is free.
pub get_elem?-first_free :
    (bits : List Bool) (i : ℕ) → first_free bits ≡ some i → get_elem? bits i ≡ some false
unfolding first_free
get_elem?-first_free [] i h = cc
get_elem?-first_free (false ∷ bits) i h = ground arith
get_elem?-first_free (true ∷ bits) zero h = ground arith
get_elem?-first_free (true ∷ bits) (suc i) h = ground (arith, get_elem?-first_free bits i)

-- Every frame before it is in use.
pub get_elem?-first_free_before :
    (bits : List Bool) (i j : ℕ) → first_free bits ≡ some i → j < i → get_elem? bits j ≡ some true
unfolding first_free
get_elem?-first_free_before [] i j h lt = cc
get_elem?-first_free_before (false ∷ bits) i j h lt = ground arith
get_elem?-first_free_before (true ∷ bits) i zero h lt = refl
get_elem?-first_free_before (true ∷ bits) zero (suc j) h lt = ground arith
get_elem?-first_free_before (true ∷ bits) (suc i) (suc j) h lt =
    ground (arith, get_elem?-first_free_before bits i j)

-- Where none is found, none is free.
pub get_elem?-first_free-none :
    (bits : List Bool) (j : ℕ) → first_free bits ≡ none → get_elem? bits j ≢ some false
unfolding first_free
get_elem?-first_free-none [] j h = ground arith
get_elem?-first_free-none (false ∷ bits) j h = ground arith
get_elem?-first_free-none (true ∷ bits) zero h = ground arith
get_elem?-first_free-none (true ∷ bits) (suc j) h = ground (arith, get_elem?-first_free-none bits j)

pub lt-length_of_get_elem? {ℓ} :
    {A : Type ℓ} (xs : List A) (i : ℕ) {x : A} → get_elem? xs i ≡ some x → i < length xs
lt-length_of_get_elem? [] i h = cc
lt-length_of_get_elem? (x ∷ xs) zero h = omega arith
lt-length_of_get_elem? (x ∷ xs) (suc i) h = omega (arith, lt-length_of_get_elem? xs i h)
