-- ===== src/Memory/Addr.antt =====
-- Physical and virtual addresses: `PhyAddr` of src/memory/physical.rs and `VirtAddr` of
-- src/memory/virt.rs, each a `u64`. The offset of the direct map comes from the boot loader.
use native.Mathlib.Nat.{div-add-mod, mul-mod_right, add-mod_right, mod-lt, mod-le}
use os_test.Prelude.{
  ◌∙◌, inl, inr, Bool-cases, ℕ, ◌+◌, ◌-◌, ◌*◌, ◌/◌, ◌%◌, ◌^◌, ◌≤◌, ◌<◌, ◌≡◌, Bool, ◌||◌, arith,
  ◌==◌, if◌then◌else◌, ◌>>>◌,
}
use os_test.Prelude.Outcome.{Outcome, done, ◌>>=◌, add64, sub64, rem64}

abbrev pub PhyAddr : Type 0
PhyAddr = ℕ

abbrev pub VirtAddr : Type 0
VirtAddr = ℕ

-- `offset` is the answer to `HIGHER_HALF_DIRECT_MAP`.
unfoldable pub as_virtual : (offset : ℕ) → PhyAddr → Outcome VirtAddr
as_virtual offset addr = add64 addr offset

unfoldable pub align_up : PhyAddr → (alignment : ℕ) → Outcome PhyAddr
align_up addr alignment = do
  ok ← rem64 addr alignment
  if ok == 0 then done addr else (do down ← sub64 addr ok; add64 down alignment)

unfoldable pub align_down : PhyAddr → (alignment : ℕ) → Outcome PhyAddr
align_down addr alignment = do ok ← rem64 addr alignment; sub64 addr ok

unfoldable pub is_valid : VirtAddr → Bool
is_valid addr = let last_16_bits = addr >>> 48 in last_16_bits == 0xffff || last_16_bits == 0

-- `to` is the least multiple of `a` that is not below `addr`.
abbrev pub IsLeastAbove : ℕ → ℕ → ℕ → Type 0
IsLeastAbove a addr to = (to % a ≡ 0) × (addr ≤ to) × (to < addr + a)

-- `to` is the greatest multiple of `a` that is not above `addr`.
abbrev pub IsGreatestBelow : ℕ → ℕ → ℕ → Type 0
IsGreatestBelow a addr to = (to % a ≡ 0) × (to ≤ addr) × (addr < to + a)

-- Rounding down is by the remainder.
module _ (addr alignment : ℕ) (pos : 0 < alignment) where
  down-mod : (addr - addr % alignment) % alignment ≡ 0
  down-mod =
      let e : addr - addr % alignment ≡ alignment * (addr / alignment) =
        omega (arith, div-add-mod addr alignment) in
      rw e (mul-mod_right alignment (addr / alignment))

  up-mod : (addr - addr % alignment + alignment) % alignment ≡ 0
  up-mod = add-mod_right (addr - addr % alignment) alignment ∙ down-mod

  -- With a positive alignment, and an address that is not within one alignment of the end of
  -- the address space, `align_up` does not panic and gives the least multiple of the alignment
  -- at or above the address.
  pub align_up-IsLeastAbove :
      addr + alignment < 2 ^ 64
      → (to : ℕ) × (align_up addr alignment ≡ done to) × IsLeastAbove alignment addr to
  unfolding align_up
  align_up-IsLeastAbove room = elim (Bool-cases (addr % alignment == 0)) [
    | inl even ↦ (addr, ground arith, ground arith)
    | inr odd ↦ (
      addr - addr % alignment + alignment,
      ground (arith, mod-lt addr pos, mod-le addr alignment),
      (up-mod, ground (arith, mod-lt addr pos), ground (arith, mod-le addr alignment)),
    )
  ]

  -- With a positive alignment `align_down` does not panic and gives the greatest multiple of
  -- the alignment at or below the address.
  pub align_down-IsGreatestBelow :
      (to : ℕ) × (align_down addr alignment ≡ done to) × IsGreatestBelow alignment addr to
  unfolding align_down
  align_down-IsGreatestBelow = (
    addr - addr % alignment,
    ground (arith, mod-le addr alignment),
    (down-mod, omega arith, ground (arith, mod-lt addr pos, mod-le addr alignment)),
  )
