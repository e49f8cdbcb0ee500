-- ===== src/Memory/Paging/Entry/Fields.antt =====
-- The fields of an entry, read and written.
use os_test.Prelude.{
  ◌+◌, ◌-◌, ◌*◌, ◌/◌, ◌%◌, ◌^◌, ◌<◌, ◌≡◌, ap, ◌∙◌, arith, bit_or, ◌↔◌, true, Bool-cases, inl, inr,
  ◌==◌,
}
use os_test.Prelude.Bits.{
  bit_and-cut, bit_and-ones, bit_and-shifted, bit_or-cut, bit_or-fields_low, zero-bit_or,
}
use os_test.Prelude.Outcome.{done, panic}
use os_test.Memory.Addr.{PhyAddr}
use os_test.Memory.Paging.Entry.{
  PageTableEntry, PageTableEntryFlags, page_size, addr, flags, set_addr, set_flags, is_present,
  flags_mask,
}

-- The address field.
pub addr_lem : (entry : PageTableEntry) → addr entry ≡ entry / 2 ^ 12 % 2 ^ 40 * 2 ^ 12
unfolding addr
addr_lem entry =
    bit_and-shifted 12 entry (2 ^ 40 - 1) ∙ ap (λ t. t * 2 ^ 12) (bit_and-ones 40 (entry / 2 ^ 12))

-- All bits but those of the address field.
pub flags_lem :
    (entry : PageTableEntry)
    → entry < 2 ^ 64
    → flags entry ≡ entry / 2 ^ 52 * 2 ^ 52 + entry % 2 ^ 12
unfolding flags
flags_lem entry h = omega (
  arith,
  bit_and-cut 12 entry flags_mask,
  bit_and-shifted 40 (entry / 2 ^ 12) (2 ^ 12 - 1),
  bit_and-ones 12 (entry / 2 ^ 12 / 2 ^ 40),
  bit_and-ones 12 (entry % 2 ^ 12),
)

-- A word that has flags and no address.
abbrev pub IsFlags : PageTableEntryFlags → Type 0
IsFlags f = (f < 2 ^ 64) × (f / 2 ^ 12 % 2 ^ 40 ≡ 0)

-- A physical address that fits the field.
abbrev pub IsFrame : PhyAddr → Type 0
IsFrame a = (a % page_size ≡ 0) × (a < 2 ^ 52)

bit_or_flags : (a : PhyAddr) (f : PageTableEntryFlags) → IsFrame a → IsFlags f → bit_or a f ≡ a + f
bit_or_flags a f frame word =
    let q = a / 2 ^ 12 in
    let h = f / 2 ^ 52 in
    let whole : f / 2 ^ 12 ≡ h * 2 ^ 40 = omega arith in
    let none : a % 2 ^ 12 ≡ 0 = omega arith in
    rw (bit_or-cut 12 a f, whole, none, zero-bit_or, bit_or-fields_low 40 q h (omega arith))
      (omega arith)

-- `set_addr` with an aligned address below 2^52 and with a word of 64 bits as flags that has no
-- bit in the address field does not panic, and `addr` and `flags` read both back from an entry
-- of 64 bits.
pub set_addr_fields :
    (a : PhyAddr) (f : PageTableEntryFlags)
    → IsFrame a
    → IsFlags f
    → (entry : PageTableEntry) × (set_addr a f ≡ done entry)
      × (addr entry ≡ a)
      × (flags entry ≡ f)
      × (entry < 2 ^ 64)
unfolding set_addr
set_addr_fields a f frame word =
    let sum = bit_or_flags a f frame word in
    (
      a + f,
      ground (arith, sum),
      omega (arith, addr_lem (a + f)),
      omega (arith, flags_lem (a + f) (omega arith)),
      omega arith,
    )

-- `set_addr` panics at every address that is not a multiple of the page size.
pub set_addr_unaligned :
    (a : PhyAddr) (f : PageTableEntryFlags) → ¬ (a % page_size ≡ 0) → set_addr a f ≡ panic
unfolding set_addr
set_addr_unaligned a f h = ground arith

-- `set_flags` with a word of 64 bits that has no bit in the address field keeps the address of
-- any entry and replaces all of its flags.
pub set_flags_fields :
    (entry : PageTableEntry) (f : PageTableEntryFlags)
    → IsFlags f
    → (addr (set_flags entry f) ≡ addr entry) × (flags (set_flags entry f) ≡ f)
unfolding set_flags
set_flags_fields entry f word =
    let frame : IsFrame (addr entry) = omega (arith, addr_lem entry) in
    let sum = bit_or_flags (addr entry) f frame word in
    rw sum (
      omega (arith, addr_lem (addr entry + f)),
      omega (arith, flags_lem (addr entry + f) (omega arith)),
    )

-- An entry of 64 bits is present exactly when its lowest bit is set.
pub is_present_iff :
    (entry : PageTableEntry) → entry < 2 ^ 64 → (is_present entry ≡ true) ↔ (entry % 2 ≡ 1)
unfolding is_present
is_present_iff entry h = ground (arith, flags_lem entry h, bit_and-ones 1 (flags entry))

-- Flags with which a page is present.
abbrev pub ArePresent : PageTableEntryFlags → Type 0
ArePresent fl = IsFlags fl × (fl % 2 ≡ 1)

-- A word that `set_addr` made from a frame and such flags.
pub set_addr-present :
    (frame : PhyAddr) (fl : PageTableEntryFlags) (word : PageTableEntry)
    → frame < 2 ^ 52
    → ArePresent fl
    → set_addr frame fl ≡ done word
    → (is_present word ≡ true) × (addr word ≡ frame) × (flags word ≡ fl)
unfolding set_addr
set_addr-present frame fl word small (proper, on) h = elim (Bool-cases (frame % page_size == 0)) [
  | inr odd ↦ absurd (ground (arith, odd, h))
  | inl even ↦
      let (made, runs, a, f, bound) =
        set_addr_fields frame fl (ground (arith, even), small) proper in
      let same : made ≡ word = ground (arith, runs, h) in
      let low : made % 2 ≡ 1 = omega (arith, flags_lem made bound, f, on) in
      rw (← same) ((is_present_iff made bound).1 low, a, f)
]
