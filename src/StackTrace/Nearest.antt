-- ===== src/StackTrace/Nearest.antt =====
-- `lookup_symbol_from_return_addr` of src/stack_trace.rs finds the function that is nearest below.
use mathlib.Core.Path.{subst}
use mathlib.Core.List.{Memᴰ}
use os_test.Prelude.{
  ℕ, zero, suc, ◌+◌, ◌-◌, ◌≤◌, ◌<◌, ◌≡◌, refl, inl, inr, Bool, Option, none, some, List, ◌==◌,
  arith, Bool-cases, Option-cases,
}
use os_test.Prelude.Outcome.{done}
use os_test.StackTrace.Symbols.{Str, Module, find_module, split_lines, lookup_symbol}
use os_test.StackTrace.Lookup.{
  Entry, Parsed, Ascending, find_in, lookup_lines-find_in, find_in-Memᴰ, find_in-none,
}
use os_test.StackTrace.{lookup_down, lookup_symbol_from_return_addr}

-- No entry with a name lies from `low` on below `high`.
abbrev pub IsBare : List Entry → (low high : ℕ) → Type 0
IsBare es low high = (a : ℕ) (n : Str) → low ≤ a → a < high → ¬ Memᴰ (a, some n) es

-- The answer is the name of the last entry from `low` on below `high`, and there is none where
-- no entry with a name lies there.
pub data Nearest (es : List Entry) (low high : ℕ) : Option Str → Type 0 where
  found :
      {a : ℕ} {n : Str}
      → low ≤ a
      → a < high
      → Memᴰ (a, some n) es
      → IsBare es (suc a) high
      → Nearest es low high (some n)
  missing : IsBare es low high → Nearest es low high none

IsBare-suc :
    {es : List Entry} {low high : ℕ}
    → IsBare es low high
    → ((n : Str) → ¬ Memᴰ (high, some n) es)
    → IsBare es low (suc high)
IsBare-suc {high = high} bare none_here a n from below m = elim (Bool-cases (a == high)) [
  | inl same ↦ let at : a ≡ high = ground (arith, same) in none_here n (rw (← at) m)
  | inr less ↦ bare a n from (ground (arith, below, less)) m
]

Nearest-suc :
    {es : List Entry} {low high : ℕ} {r : Option Str}
    → Nearest es low high r
    → ((n : Str) → ¬ Memᴰ (high, some n) es)
    → Nearest es low (suc high) r
Nearest-suc (found from below there bare) none_here =
    found from (omega (arith, below)) there (IsBare-suc bare none_here)
Nearest-suc (missing bare) none_here = missing (IsBare-suc bare none_here)

to_suc : (a b : ℕ) → a + suc b ≡ suc (a + b)
to_suc a b = omega arith

add-sub_back : (a b : ℕ) → a ≤ b → a + (b - a) ≡ b
add-sub_back a b h = omega arith

module _ (is_utf8 : List ℕ → Bool) (response : List Module) (symbols : Module) (es : List Entry)
    (finds : find_module response ≡ some symbols)
    (parsed : Parsed is_utf8 (split_lines symbols.bytes) es) (ascending : Ascending 0 es)
    (virt_begin : ℕ) where
  lookup_symbol-find_in :
      (addr : ℕ) → lookup_symbol is_utf8 (some response) addr ≡ done (find_in es addr)
  unfolding lookup_symbol
  lookup_symbol-find_in addr = rw finds (lookup_lines-find_in parsed addr)

  lookup_down-Nearest :
      (count : ℕ)
      → (r : Option Str) × (lookup_down is_utf8 (some response) virt_begin count ≡ done r)
        × Nearest es virt_begin (virt_begin + count) r
  unfolding lookup_down
  lookup_down-Nearest zero = (none, refl, missing (λ a n from below. omega (arith, from, below)))
  lookup_down-Nearest (suc count) = elim (Option-cases (find_in es (virt_begin + count))) [
    | inl bare ↦
        let (r, rest, near) = lookup_down-Nearest count in
        (
          r,
          rw (lookup_symbol-find_in (virt_begin + count), bare) rest,
          rw (to_suc virt_begin count)
              (Nearest-suc near (λ n. find_in-none ascending (virt_begin + count) n bare)),
        )
    | inr (n, here) ↦ (
      some n,
      rw (lookup_symbol-find_in (virt_begin + count), here) refl,
      found (omega arith) (omega arith) (find_in-Memᴰ es (virt_begin + count) n here)
          (λ a m from below. omega (arith, from, below)),
    )
  ]

  -- Where the boot loader gave the symbol file, and its lines parse and are in ascending order, as the build
  -- makes them, `lookup_symbol_from_return_addr` does not panic, and its answer is the name of the
  -- last entry from the start of the kernel on below the return address, or `None` where there
  -- is no entry with a name.
  pub lookup_symbol_from_return_addr-Nearest :
      (ret_addr : ℕ)
      → virt_begin ≤ ret_addr
      → (r : Option Str) × (lookup_symbol_from_return_addr is_utf8
            (some response)
            virt_begin
            ret_addr
          ≡ done r)
        × Nearest es virt_begin ret_addr r
  unfolding lookup_symbol_from_return_addr
  lookup_symbol_from_return_addr-Nearest ret_addr low =
      let (r, ends, near) = lookup_down-Nearest (ret_addr - virt_begin) in
      (
        r,
        ends,
        subst (λ high. Nearest es virt_begin high r) (add-sub_back virt_begin ret_addr low) near,
      )
