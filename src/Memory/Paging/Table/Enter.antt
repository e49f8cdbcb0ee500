-- ===== src/Memory/Paging/Table/Enter.antt =====
-- One level of `map_page_unchecked` of src/memory/paging.rs: what it leaves in memory.
use native.Mathlib.Decide.{ℕ_discrete}
use os_test.Prelude.{
  Bool, false, ℕ, zero, suc, ◌+◌, ◌^◌, ◌≤◌, ◌<◌, ◌≡◌, ◌≢◌, ◌⊎◌, inl, inr, refl, sym, ap, ◌∙◌, true,
  arith, Bool-cases,
}
use os_test.Prelude.Outcome.{done, Outcome-cases}
use os_test.Memory.Addr.{PhyAddr, VirtAddr, as_virtual}
use os_test.Memory.FrameSource.{PhysicalAllocator}
use os_test.Memory.Paging.Entry.{
  PageTableEntry, PageTableEntryFlags, empty, addr, flags, is_present, set_addr,
}
use os_test.Memory.Paging.Entry.Fields.{ArePresent, set_addr-present}
use os_test.Memory.Paging.Table.{
  Mem, write, slot, clear_entries, clear_all_entries, as_page_table_mut, enter_level,
}

-- The address is one of the 4096 bytes of a table.
abbrev pub InTable : VirtAddr → VirtAddr → Type 0
InTable table x = (table ≤ x) × (x < table + 4096)

pub write_self : (mem : Mem) (at : VirtAddr) (value : ℕ) → write mem at value at ≡ value
unfolding write
write_self mem at value = ground arith

pub write_ne : (mem : Mem) (at x : VirtAddr) (value : ℕ) → x ≢ at → write mem at value x ≡ mem x
unfolding write
write_ne mem at x value ne = ground (arith, ne)

-- Clearing a table changes no other address.
clear_entries-outside :
    (count i : ℕ) (table x : VirtAddr) (mem : Mem)
    → i + count ≤ 512
    → ¬ InTable table x
    → clear_entries count i table mem x ≡ mem x
unfolding clear_entries
clear_entries-outside zero i table x mem room out = refl
clear_entries-outside (suc count) i table x mem room out =
    clear_entries-outside count (i + 1) table x (write mem (slot table i) empty) (omega arith) out
    ∙ write_ne mem (slot table i) x empty (λ same. out (omega (arith, same)))

pub clear_all_entries-outside :
    (table x : VirtAddr) (mem : Mem) → ¬ InTable table x → clear_all_entries table mem x ≡ mem x
unfolding clear_all_entries
clear_all_entries-outside table x mem out =
    clear_entries-outside 512 0 table x mem (omega arith) out

clear_entries-below :
    (count i : ℕ) (table : VirtAddr) (mem : Mem) (j : ℕ)
    → j < i
    → clear_entries count i table mem (slot table j) ≡ mem (slot table j)
unfolding clear_entries
clear_entries-below zero i table mem j below = refl
clear_entries-below (suc count) i table mem j below =
    clear_entries-below count (i + 1) table (write mem (slot table i) empty) j (omega arith)
    ∙ write_ne mem (slot table i) (slot table j) empty (λ same. omega (arith, same))

clear_entries-entry :
    (count i : ℕ) (table : VirtAddr) (mem : Mem) (j : ℕ)
    → i ≤ j
    → j < i + count
    → clear_entries count i table mem (slot table j) ≡ empty
unfolding clear_entries
clear_entries-entry zero i table mem j from to = absurd (omega arith)
clear_entries-entry (suc count) i table mem j from to = elim (ℕ_discrete i j) [
  | yes same ↦ rw (← same) (
      clear_entries-below count (i + 1) table (write mem (slot table i) empty) i (omega arith)
      ∙ write_self mem (slot table i) empty)
  | no ne ↦
      clear_entries-entry count (i + 1) table (write mem (slot table i) empty) j (omega (arith, ne))
        (omega arith)
]

-- Clearing a table leaves no entry in it.
pub clear_all_entries-entry :
    (table : VirtAddr) (mem : Mem) (j : ℕ)
    → j < 512
    → clear_all_entries table mem (slot table j) ≡ empty
unfolding clear_all_entries
clear_all_entries-entry table mem j small =
    clear_entries-entry 512 0 table mem j (omega arith) small

-- The allocator gives frames whose addresses fit an entry.
abbrev pub GivesFrames : {A : Type 0} → PhysicalAllocator A → Type 0
GivesFrames {A = A} alloc =
    (a a' : A) (frame : PhyAddr) → alloc.allocate_frame a ≡ done (a', frame) → frame < 2 ^ 52

-- What one level leaves: the entry is present and leads to the table, an entry that was present is
-- what it was and another one has the flags, outside of the entry and the table nothing changed, and
-- nothing at all where the entry was present.
pub record Entered (offset : ℕ) (entry : VirtAddr) (fl : PageTableEntryFlags) (mem : Mem)
    (table : VirtAddr) (mem' : Mem) : Type 0 where
  pub present : is_present (mem' entry) ≡ true
  pub leads : as_page_table_mut offset (mem' entry) ≡ done table
  pub kept : (mem' entry ≡ mem entry) ⊎ (flags (mem' entry) ≡ fl)
  pub outside : (x : VirtAddr) → x ≢ entry → ¬ InTable table x → mem' x ≡ mem x
  pub stays : is_present (mem entry) ≡ true → mem' ≡ mem

pub as_page_table_mut-addr :
    (offset : ℕ) (entry : PageTableEntry) (t : VirtAddr)
    → as_page_table_mut offset entry ≡ done t
    → t ≡ addr entry + offset
unfolding as_page_table_mut as_virtual
as_page_table_mut-addr offset entry t h = ground arith

pub true-false : {b : Bool} → b ≡ true → b ≡ false → ⊥
true-false yes_it_is not_so = ground (arith, yes_it_is, not_so)

cleared-entry :
    (t entry : VirtAddr) (word : PageTableEntry) (mem : Mem)
    → ¬ InTable t entry
    → clear_all_entries t (write mem entry word) entry ≡ word
cleared-entry t entry word mem out =
    clear_all_entries-outside t entry (write mem entry word) out ∙ write_self mem entry word

-- A table that does not lie around its own entry, and that is cleared after the entry is written.
cleared-Entered :
    (offset : ℕ) (entry t : VirtAddr) (word : PageTableEntry) (fl : PageTableEntryFlags) (mem : Mem)
    → is_present (mem entry) ≡ false
    → is_present word ≡ true
    → flags word ≡ fl
    → as_page_table_mut offset word ≡ done t
    → ¬ InTable t entry
    → Entered offset entry fl mem t (clear_all_entries t (write mem entry word))
cleared-Entered offset entry t word fl mem absent present flags leads out =
    let mid : Mem = write mem entry word in
    let stays : clear_all_entries t mid entry ≡ word = cleared-entry t entry word mem out in
    record {
      present = rw stays present;
      leads = rw stays leads;
      kept = inr (rw stays flags);
      outside = λ x ne away. clear_all_entries-outside t x mid away ∙ write_ne mem entry x word ne;
      stays = λ was. absurd (true-false was absent);
    }

pub enter_level-Entered :
    {A : Type 0} (alloc : PhysicalAllocator A) (offset : ℕ) (entry table : VirtAddr)
    (fl : PageTableEntryFlags) (mem mem' : Mem) (a a' : A)
    → GivesFrames alloc
    → ArePresent fl
    → ((b : A) (frame : PhyAddr)
        → alloc.allocate_frame a ≡ done (b, frame)
        → ¬ InTable (frame + offset) entry)
    → enter_level offset alloc entry fl (mem, a) ≡ done (table, mem', a')
    → Entered offset entry fl mem table mem'
unfolding enter_level
enter_level-Entered alloc offset entry table fl mem mem' a a' gives on out h =
    elim (Bool-cases (is_present (mem entry))) [
      | inl there ↦ elim (Outcome-cases (as_page_table_mut offset (mem entry))) [
        | inr panics ↦ absurd (ground arith)
        | inl (t, leads) ↦
            let same : mem ≡ mem' = ground arith in
            let at : t ≡ table = ground arith in
            rw (← same) (record {
              present = there;
              leads = leads ∙ ap done at;
              kept = inl refl;
              outside = λ x ne o. refl;
              stays = λ was. refl;
            })
      ]
      | inr absent ↦ elim (Outcome-cases (alloc.allocate_frame a)) [
        | inr panics ↦ absurd (ground arith)
        | inl ((b, frame), given) ↦ elim (Outcome-cases (set_addr frame fl)) [
          | inr panics ↦ absurd (ground arith)
          | inl (word, set) ↦
              let (present, at, flags) =
                set_addr-present frame fl word (gives a b frame given) on set in
              elim (Outcome-cases (as_page_table_mut offset word)) [
                | inr panics ↦ absurd (ground arith)
                | inl (t, leads) ↦
                    let lies : t ≡ frame + offset =
                      as_page_table_mut-addr offset word t leads ∙ ap (λ n. n + offset) at in
                    let away : ¬ InTable t entry = rw lies (out b frame given) in
                    let made : Mem = clear_all_entries t (write mem entry word) in
                    let stays : made entry ≡ word = cleared-entry t entry word mem away in
                    let runs : enter_level offset alloc entry fl (mem, a) ≡ done (t, made, b) =
                      rw (absent, given, set, leads, stays, leads) refl in
                    let (goes, same) : (t ≡ table) × (made ≡ mem') = ground (arith, sym runs ∙ h) in
                    rw (← same, ← goes)
                      (cleared-Entered offset entry t word fl mem absent present flags leads away)
              ]
        ]
      ]
    ]
