-- ===== src/StackTrace.antt =====
-- src/stack_trace.rs, and the loop of the panic handler of src/panic.rs that prints a trace.
pub mod Symbols
pub mod Frames
pub mod Lookup
pub mod Nearest
use os_test.Prelude.{
  ℕ, zero, suc, ◌+◌, ◌-◌, Bool, Option, none, some, List, [], ◌∷◌, ◌==◌, if◌then◌else◌,
}
use os_test.Prelude.Outcome.{Outcome, done, ◌>>=◌, unwrap}
use os_test.StackTrace.Symbols.{Str, lookup_symbol}

pub record StackTrace : Type 0 where
  pub rbp : Option ℕ

-- `new` with the value of the frame register.
abbrev pub new : ℕ → StackTrace
new rbp = record { rbp = some rbp }

-- `next`, where `load` reads a word of the stack.
unfoldable pub next : (load : ℕ → ℕ) → StackTrace → StackTrace × Option ℕ
next load trace = elim trace.rbp [
  | none ↦ (trace, none)
  | some rbp ↦
      let addr = load (rbp + 8) in
      let below = load rbp in (record { rbp = if below == 0 then none else some below }, some addr)
]

-- `"unknown_func"`
abbrev pub unknown_func : Str
unknown_func =
    b'u' ∷ b'n' ∷ b'k' ∷ b'n' ∷ b'o' ∷ b'w' ∷ b'n' ∷ b'_' ∷ b'f' ∷ b'u' ∷ b'n' ∷ b'c' ∷ []

abbrev pub or_unknown : Option Str → Str
or_unknown none = unknown_func
or_unknown (some sym) = sym

-- `modules` is what the boot loader gave, `is_utf8` the check of `str::from_utf8`, and
-- `virt_begin` the answer of `kernel_virt_begin`.
module _ (is_utf8 : List ℕ → Bool) (modules : Option (List Symbols.Module)) (virt_begin : ℕ) where
  -- The loop of `lookup_symbol_from_return_addr`: `count` addresses downwards, the first of them
  -- is `virt_begin + count - 1`.
  pub lookup_down : (count : ℕ) → Outcome (Option Str)
  lookup_down zero = done none
  lookup_down (suc count) =
      let rest = lookup_down count in
      do
        found ← lookup_symbol is_utf8 modules (virt_begin + count)
        elim found [ some sym ↦ done (some sym) | none ↦ rest ]

  pub lookup_symbol_from_return_addr : ℕ → Outcome (Option Str)
  unfolding lookup_down
  lookup_symbol_from_return_addr ret_addr = lookup_down (ret_addr - virt_begin)

  -- The loop of the panic handler, on fuel: the lines that it prints, each the name of a function and
  -- the address at which it was called, and the name that it prints at the end.
  pub trace_lines :
      (fuel : ℕ)
      → (load : ℕ → ℕ) → StackTrace
      → (func_name : Str) → Outcome (Option (List (Str × ℕ) × Str))
  unfolding next lookup_symbol_from_return_addr
  trace_lines zero load trace func_name = done none
  trace_lines (suc fuel) load trace func_name = do
    let (trace', item) = next load trace
    elim item [
      | none ↦ done (some ([], func_name))
      | some addr ↦ (do
        found ← lookup_symbol_from_return_addr addr
        rest ← trace_lines fuel load trace' (or_unknown found)
        elim rest [
          | none ↦ done none
          | some (lines, last) ↦ done (some ((func_name, addr) ∷ lines, last))
        ])
    ]

  -- What the panic handler prints, from the instruction pointer and the frame register in it.
  unfoldable pub print_trace :
      (fuel : ℕ) → (load : ℕ → ℕ) → (rip rbp : ℕ) → Outcome (Option (List (Str × ℕ) × Str))
  unfolding trace_lines
  print_trace fuel load rip rbp = do
    current ← lookup_symbol_from_return_addr rip
    func_name ← unwrap current
    trace_lines fuel load (new rbp) func_name
