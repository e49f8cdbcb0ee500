-- ===== src/Memory/Paging/Page/Index.antt =====
-- The indices of a page, and the way between pages and addresses.
use os_test.Prelude.{
  ℕ, ◌+◌, ◌-◌, ◌*◌, ◌/◌, ◌%◌, ◌^◌, ◌<◌, ◌≡◌, ◌⊎◌, true, false, none, some, arith, ltb,
  if◌then◌else◌,
}
use os_test.Prelude.Bits.{bit_and-ones}
use os_test.Prelude.Outcome.{done, panic, ◌>>=◌}
use os_test.Memory.Addr.{VirtAddr, is_valid}
use os_test.Memory.Paging.Page.{
  Page, from_virt, to_virt, canonical_num, new, level4_idx, level3_idx, level2_idx, level1_idx,
  next_by,
}

pub canonical_num_lem : (page : Page) → canonical_num page ≡ page % 2 ^ 36
unfolding canonical_num
canonical_num_lem page = bit_and-ones 36 page

-- The four indices are digits to the base 512 of the canonical number of the page: each is below
-- 512, and together they make up the number.
pub level_idx_digits :
    (page : Page)
    → (level4_idx page < 512)
      × (level3_idx page < 512)
      × (level2_idx page < 512)
      × (level1_idx page < 512)
      × (((level4_idx page * 512 + level3_idx page) * 512 + level2_idx page) * 512 + level1_idx page
          ≡ page % 2 ^ 36)
unfolding level4_idx level3_idx level2_idx level1_idx
level_idx_digits page = omega (arith, canonical_num_lem page)

-- Two pages that the tables cannot tell apart have the same canonical number.
pub level_idx_injective :
    (p q : Page)
    → level4_idx p ≡ level4_idx q
    → level3_idx p ≡ level3_idx q
    → level2_idx p ≡ level2_idx q
    → level1_idx p ≡ level1_idx q
    → canonical_num p ≡ canonical_num q
level_idx_injective p q e4 e3 e2 e1 =
    omega (arith, level_idx_digits p, level_idx_digits q, canonical_num_lem p, canonical_num_lem q)

-- `Page::new` never panics: every number has a canonical number below the bound that it checks.
pub new-done : (num : ℕ) → new num ≡ done num
unfolding new
new-done num = ground (arith, canonical_num_lem num)

-- The page of an address of 64 bits, taken back to an address, is the address rounded down to
-- its page. This holds for the addresses that `is_valid` accepts, and for all others
-- `Page::from` panics.
pub to_virt-from_virt :
    (v : VirtAddr)
    → v < 2 ^ 64
    → (is_valid v ≡ true) × ((from_virt v >>= to_virt) ≡ done (v - v % 4096))
      ⊎ (is_valid v ≡ false) × (from_virt v ≡ panic)
unfolding from_virt to_virt
to_virt-from_virt v h = ground arith

-- An address that the processor accepts: the bits 47 to 63 are all equal.
abbrev pub IsCanonical : VirtAddr → Type 0
IsCanonical v = (v / 2 ^ 47 ≡ 0) ⊎ (v / 2 ^ 47 ≡ 2 ^ 17 - 1)

-- `is_valid` accepts every canonical address.
pub is_valid_of_canonical : (v : VirtAddr) → IsCanonical v → is_valid v ≡ true
unfolding is_valid
is_valid_of_canonical v h = ground arith

-- `is_valid` also accepts every address whose bit 47 differs from the bits 48 to 63, and no such
-- address is canonical.
pub is_valid_too_wide :
    (v : VirtAddr)
    → (v / 2 ^ 47 ≡ 1) ⊎ (v / 2 ^ 47 ≡ 2 ^ 17 - 2)
    → (is_valid v ≡ true) × ¬ IsCanonical v
unfolding is_valid
is_valid_too_wide v h = (ground arith, λ c. omega arith)

-- For a page and a step of 64 bits that do not overflow: `next_by` gives the page that many
-- numbers on, exactly when the canonical number stays below 2 ^ 36, and else gives none.
pub next_by_lem :
    (page num : ℕ)
    → page + num < 2 ^ 64
    → next_by page num
      ≡ done (if ltb (page % 2 ^ 36 + num) (2 ^ 36) then some (page + num) else none)
unfolding next_by
next_by_lem page num h = rw canonical_num_lem (ground arith)
