-- ===== src/Idt/Init.antt =====
-- `create_init_idt` of src/lib.rs, which fills the entries of the processor's exceptions.
use os_test.Prelude.{
  ℕ, zero, suc, ◌+◌, ◌^◌, ◌<◌, ◌≤◌, ◌∙◌, ap, some, none, arith, length, get_elem?, Bool-cases, inl,
  inr, ◌≡◌, refl, Bool, ◌||◌, List, [], ◌∷◌, ◌++◌, map, ◌==◌, if◌then◌else◌, replicate,
}
use os_test.Prelude.Outcome.{Outcome, done, ◌>>=◌}
use os_test.Idt.Entry.{gate_of, handler_of, gate_of-to_raw}
use os_test.Idt.{
  Idt, IdtEntryRaw, IdtEntry, IdtEntryType, interrupt, trap, to_raw, zeroed, init, insert,
}

-- The functions that the macros make for an exception: `trap_handler_fn!` and
-- `interrupt_handler_fn!`, and `trap_handler_fn_with_error!` for one with an error code on the stack.
pub data Handler : Type 0 where
  plain with_error : ℕ → Handler

-- `address` is where the linker puts a handler, `cs` the current code segment.
module _ (address : Handler → ℕ) (cs : ℕ) where
  -- `IdtEntry::new_with_current_cs`
  abbrev new_with_current_cs : IdtEntryType → IdtEntry
  new_with_current_cs entry_type = record { entry_type = entry_type; gdt_kernel_cs = cs }

  -- The calls of `insert`, in their order: the first of them, and the others.
  abbrev inserted_first : List (ℕ × IdtEntryType)
  inserted_first =
      (0, trap (address (plain 0)))
      ∷ (1, trap (address (plain 1)))
      ∷ (2, interrupt (address (plain 2)))
      ∷ (3, trap (address (plain 3)))
      ∷ (4, trap (address (plain 4)))
      ∷ (5, trap (address (plain 5)))
      ∷ (6, trap (address (plain 6)))
      ∷ (7, trap (address (plain 7)))
      ∷ (8, trap (address (with_error 8)))
      ∷ (9, trap (address (plain 9)))
      ∷ (10, trap (address (with_error 10)))
      ∷ (11, trap (address (with_error 11)))
      ∷ (12, trap (address (with_error 12)))
      ∷ (13, trap (address (with_error 13)))
      ∷ []

  abbrev inserted_last : List (ℕ × IdtEntryType)
  inserted_last =
      (15, trap (address (plain 15)))
      ∷ (16, trap (address (plain 16)))
      ∷ (17, trap (address (with_error 17)))
      ∷ (18, trap (address (plain 18)))
      ∷ (19, trap (address (plain 19)))
      ∷ (20, trap (address (plain 20)))
      ∷ (21, trap (address (with_error 21)))
      ∷ (22, trap (address (plain 22)))
      ∷ (23, trap (address (plain 23)))
      ∷ (24, trap (address (plain 24)))
      ∷ (25, trap (address (plain 25)))
      ∷ (26, trap (address (plain 26)))
      ∷ (27, trap (address (plain 27)))
      ∷ (28, trap (address (plain 28)))
      ∷ (29, trap (address (with_error 29)))
      ∷ (30, trap (address (with_error 30)))
      ∷ (31, trap (address (plain 31)))
      ∷ (14, trap (address (with_error 14)))
      ∷ []

  abbrev inserted : List (ℕ × IdtEntryType)
  inserted = inserted_first ++ inserted_last

  pub insert_all : List (ℕ × IdtEntryType) → Idt → Outcome Idt
  unfolding insert
  insert_all [] idt = done idt
  insert_all ((index, entry_type) ∷ more) idt = do
    idt ← insert idt index (new_with_current_cs entry_type)
    insert_all more idt

  pub create_init_idt : Outcome Idt
  unfolding insert_all
  create_init_idt = insert_all inserted init

-- The exceptions for which the processor pushes an error code.
abbrev pub pushes_error_code : ℕ → Bool
pushes_error_code i =
    i == 8
    || i == 10
    || i == 11
    || i == 12
    || i == 13
    || i == 14
    || i == 17
    || i == 21
    || i == 29
    || i == 30

-- The numbers from `i` on, `n` of them.
abbrev pub count_from : ℕ → ℕ → List ℕ
count_from i zero = []
count_from i (suc n) = i ∷ count_from (suc i) n

-- The entry that an exception wants: a handler that takes an error code exactly where there is one,
-- behind a trap gate, except for the non-maskable interrupt 2.
abbrev pub wanted : (Handler → ℕ) → ℕ → ℕ → IdtEntry
wanted address cs i =
    let handler = address (if pushes_error_code i then with_error i else plain i) in
    record { entry_type = if i == 2 then interrupt handler else trap handler; gdt_kernel_cs = cs }

-- The whole table.
create_init_idt_table :
    (address : Handler → ℕ) (cs : ℕ)
    → create_init_idt address cs
      ≡ done (map (λ i. to_raw (wanted address cs i)) (count_from 0 32) ++ replicate 224 zeroed)
unfolding create_init_idt
create_init_idt_table address cs = refl

get_elem?-count_from {ℓ} :
    {A : Type ℓ} (f : ℕ → A) (start n i : ℕ) (rest : List A)
    → i < n
    → get_elem? (map f (count_from start n) ++ rest) i ≡ some (f (start + i))
get_elem?-count_from f start zero i rest low = absurd (omega (arith, low))
get_elem?-count_from f start (suc n) zero rest low =
    let same : start ≡ start + 0 = omega arith in ap (λ (j : ℕ). some (f j)) same
get_elem?-count_from f start (suc n) (suc i) rest low =
    let same : suc start + i ≡ start + suc i = omega arith in
    get_elem?-count_from f (suc start) n i rest (omega (arith, low))
    ∙ ap (λ (j : ℕ). some (f j)) same

get_elem?-behind {ℓ} :
    {A : Type ℓ} (f : ℕ → A) (start n i count : ℕ) (x : A)
    → n ≤ i
    → i < n + count
    → get_elem? (map f (count_from start n) ++ replicate count x) i ≡ some x
get_elem?-behind f start zero i zero x low high = absurd (omega (arith, high))
get_elem?-behind f start zero zero (suc count) x low high = refl
get_elem?-behind f start zero (suc i) (suc count) x low high =
    get_elem?-behind f start zero i count x (omega arith) (omega (arith, high))
get_elem?-behind f start (suc n) zero count x low high = absurd (omega (arith, low))
get_elem?-behind f start (suc n) (suc i) count x low high =
    get_elem?-behind f (suc start) n i count x (omega (arith, low)) (omega (arith, high))

wanted-handler_of :
    (address : Handler → ℕ) (cs i : ℕ)
    → ((h : Handler) → address h < 2 ^ 64)
    → handler_of (wanted address cs i).entry_type < 2 ^ 64
wanted-handler_of address cs i small = elim (Bool-cases (i == 2)) [
  | inl nmi ↦ rw nmi (small _)
  | inr other ↦ rw other (small _)
]

-- For handlers at addresses of 64 bits, `create_init_idt` returns a table of 256 entries in which
-- the processor finds, for each of the exceptions 0 to 31, a present gate to the handler of that
-- number, which takes an error code exactly where the processor pushes one: a trap gate, or an
-- interrupt gate for exception 2. In the other 224 entries it finds no gate.
pub create_init_idt-gate_of :
    (address : Handler → ℕ) (cs : ℕ)
    → ((h : Handler) → address h < 2 ^ 64)
    → (idt : Idt) × (create_init_idt address cs ≡ done idt)
      × (length idt ≡ 256)
      × ((i : ℕ)
          → i < 32
          → (raw : IdtEntryRaw) × (get_elem? idt i ≡ some raw)
            × (gate_of raw ≡ some (wanted address cs i)))
      × ((i : ℕ)
          → 32 ≤ i
          → i < 256
          → (raw : IdtEntryRaw) × (get_elem? idt i ≡ some raw) × (gate_of raw ≡ none))
create_init_idt-gate_of address cs small = (
  map (λ i. to_raw (wanted address cs i)) (count_from 0 32) ++ replicate 224 zeroed,
  create_init_idt_table address cs,
  refl,
  λ i low. (
    to_raw (wanted address cs i),
    get_elem?-count_from (λ j. to_raw (wanted address cs j)) 0 32 i (replicate 224 zeroed) low
        ∙ ap (λ (j : ℕ). some (to_raw (wanted address cs j))) (omega arith),
    gate_of-to_raw (wanted address cs i) (wanted-handler_of address cs i small),
  ),
  λ i low high. (
    zeroed,
    get_elem?-behind (λ j. to_raw (wanted address cs j)) 0 32 i 224 zeroed low high,
    refl,
  ),
)
