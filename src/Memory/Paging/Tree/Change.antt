-- ===== src/Memory/Paging/Tree/Change.antt =====
-- Lookups in the tables of src/memory/paging.rs, in memory of which one entry changes.
use native.Mathlib.Decide.{ℕ_discrete}
use os_test.Prelude.{
  ℕ, suc, ◌+◌, ◌≡◌, ◌≢◌, refl, sym, ap, ◌∙◌, true, false, inl, inr, ◌<◌, Bool-cases, some, List, [],
  ◌∷◌, length, arith, ◌%◌,
}
use mathlib.Core.Option.{some-injective}
use os_test.Prelude.Outcome.{Outcome, done, Outcome-cases}
use os_test.Memory.Addr.{PhyAddr, VirtAddr}
use os_test.Memory.Paging.Entry.{PageTableEntry, is_present}
use os_test.Memory.Paging.Table.{Mem, slot, as_page_table_mut}
use os_test.Memory.Paging.Tree.{Mapping, is_huge, lookup, step, Owner, IsTree, onto, AreIndices}

-- The offset of the direct map does not change which entry of a table an address is.
pub slot-injective :
    (f g offset i j : ℕ) (t u : VirtAddr)
    → (t ≡ f + offset) × (f % 4096 ≡ 0)
    → (u ≡ g + offset) × (g % 4096 ≡ 0)
    → i < 512
    → j < 512
    → slot t i ≡ slot u j
    → (t ≡ u) × (i ≡ j)
slot-injective f g offset i j t u at_t at_u small_i small_j same = omega arith

module _ {offset : ℕ} {Held : PhyAddr → Type 0} {root : VirtAddr} {mem : Mem} {owner : Owner}
    (tree : IsTree offset Held root mem owner) where
  -- Two entries of tables that are owned.
  pub slot-owned :
      (t u : VirtAddr) (p q : List ℕ) (i j : ℕ)
      → owner t ≡ some p
      → owner u ≡ some q
      → i < 512
      → j < 512
      → slot t i ≡ slot u j
      → (t ≡ u) × (i ≡ j)
  slot-owned t u p q i j own_t own_u small_i small_j same =
      let (f, at_t, whole_f, held_f) = tree.frame t p own_t in
      let (g, at_u, whole_g, held_g) = tree.frame u q own_u in
      slot-injective f g offset i j t u (at_t, whole_f) (at_u, whole_g) small_i small_j same

  -- A lookup from the root comes through each table that is owned.
  pub lookup-owned :
      (p is : List ℕ) (t : VirtAddr)
      → owner t ≡ some p
      → length p + length is ≡ 4
      → 0 < length is
      → lookup offset mem root (onto p is) ≡ lookup offset mem t is
  unfolding lookup step
  lookup-owned [] is t own sum pos = ap (λ u. lookup offset mem u is) (sym (tree.only t own))
  lookup-owned (i ∷ p) [] t own sum pos = absurd (omega arith)
  lookup-owned (i ∷ p) (j ∷ js) t own sum pos =
      let (s, left, own_s, small, depth, link) = tree.up t p i own in
      let here : left ≡ length js = omega arith in
      let not_huge : is_huge (length js) (mem (slot s i)) ≡ false = rw (← here) link.small in
      lookup-owned p (i ∷ j ∷ js) s own_s (omega arith) (omega arith)
      ∙ rw (not_huge, link.present, link.leads) refl

-- Another set of frames may be held, so long as those of the tables are.
pub IsTree-held :
    {offset : ℕ} {Held Held' : PhyAddr → Type 0} {root : VirtAddr} {mem : Mem} {owner : Owner}
    → IsTree offset Held root mem owner
    → ((t : VirtAddr) (p : List ℕ) (f : PhyAddr)
        → owner t ≡ some p
        → t ≡ f + offset
        → Held f
        → Held' f)
    → IsTree offset Held' root mem owner
IsTree-held tree more = record {
  top = tree.top;
  only = tree.only;
  frame = λ t p own.
      let (f, lies, whole, held) = tree.frame t p own in (f, lies, whole, more t p f own lies held);
  down = tree.down;
  up = tree.up;
}

-- Two ways to go on from an entry that agree on the table that the entry leads to.
pub step-same :
    (offset : ℕ) (j : ℕ) (js : List ℕ) (entry : PageTableEntry)
    (next' next : VirtAddr → Outcome Mapping)
    → (is_present entry ≡ true
        → is_huge (length js) entry ≡ false
        → (u : VirtAddr) → as_page_table_mut offset entry ≡ done u
        → next' u ≡ next u)
    → step offset (j ∷ js) entry next' ≡ step offset (j ∷ js) entry next
unfolding step
step-same offset j js entry next' next agree = elim (Bool-cases (is_huge (length js) entry)) [
  | inl huge ↦ rw huge refl
  | inr small ↦ elim (Bool-cases (is_present entry)) [
    | inr absent ↦ rw (small, absent) refl
    | inl there ↦ elim (Outcome-cases (as_page_table_mut offset entry)) [
      | inr panics ↦ rw (small, there, panics) refl
      | inl (u, leads) ↦ rw (small, there, leads) (agree there small u leads)
    ]
  ]
]

-- Memory in which no entry of a table changed but the one at `i0` of the table `t0`, and a page with
-- the indices `whole`, whose lookup is the same from this entry on where it comes there.
module _ {offset : ℕ} {Held : PhyAddr → Type 0} {root : VirtAddr} {mem : Mem} {owner : Owner}
    (tree : IsTree offset Held root mem owner) (mem' : Mem) (t0 : VirtAddr) (p0 : List ℕ) (i0 : ℕ)
    (own0 : owner t0 ≡ some p0) (small0 : i0 < 512)
    (same : (t : VirtAddr) (p : List ℕ) (i : ℕ)
      → owner t ≡ some p
      → i < 512
      → slot t i ≢ slot t0 i0
      → mem' (slot t i) ≡ mem (slot t i))
    (whole : List ℕ)
    (through : (is : List ℕ)
      → onto p0 (i0 ∷ is) ≡ whole
      → AreIndices is
      → length p0 + suc (length is) ≡ 4
      → lookup offset mem' t0 (i0 ∷ is) ≡ lookup offset mem t0 (i0 ∷ is)) where
  lookup-through :
      (p is : List ℕ) (i : ℕ) (t : VirtAddr)
      → owner t ≡ some p
      → onto p (i ∷ is) ≡ whole
      → i < 512
      → AreIndices is
      → length p + suc (length is) ≡ 4
      → slot t i ≡ slot t0 i0
      → lookup offset mem' t (i ∷ is) ≡ lookup offset mem t (i ∷ is)
  lookup-through p is i t own on small below sum hit =
      let (at, index) = slot-owned tree t t0 p p0 i i0 own own0 small small0 hit in
      let path : p ≡ p0 = some-injective p p0 (sym own ∙ ap owner at ∙ own0) in
      rw (at, index) (through is (rw (path, index) at on) below (rw path at sum))

  pub lookup-same :
      (p is : List ℕ) (t : VirtAddr)
      → owner t ≡ some p
      → onto p is ≡ whole
      → AreIndices is
      → length p + length is ≡ 4
      → lookup offset mem' t is ≡ lookup offset mem t is
  unfolding lookup step
  lookup-same p [] t own on below sum = refl
  lookup-same p (i ∷ []) t own on (small, below) sum = elim (ℕ_discrete (slot t i) (slot t0 i0)) [
    | yes hit ↦ lookup-through p [] i t own on small below sum hit
    | no miss ↦ rw (same t p i own small miss) refl
  ]
  lookup-same p (i ∷ j ∷ js) t own on (small, below) sum =
      elim (ℕ_discrete (slot t i) (slot t0 i0)) [
        | yes hit ↦ lookup-through p (j ∷ js) i t own on small below sum hit
        | no miss ↦ rw (same t p i own small miss) (
            step-same offset j js (mem (slot t i)) (λ u. lookup offset mem' u (j ∷ js))
              (λ u. lookup offset mem u (j ∷ js))
              (λ there not_huge u leads.
                let (v, goes, owned) =
                  tree.down t p i (length js) own small (omega arith) there not_huge in
                let at : v ≡ u = ground (arith, goes, leads) in
                lookup-same (i ∷ p) (j ∷ js) u (rw at at owned) on below (omega arith)))
      ]
