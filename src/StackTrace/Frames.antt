-- ===== src/StackTrace/Frames.antt =====
-- The loop of the panic handler over the frames that `next` of src/stack_trace.rs walks.
use os_test.Prelude.{
  ℕ, suc, ◌+◌, ◌≡◌, ◌≢◌, refl, Bool, false, Option, some, List, [], ◌∷◌, length, ◌==◌, arith,
}
use os_test.Prelude.Outcome.{done}
use os_test.StackTrace.Symbols.{Str, Module}
use os_test.StackTrace.{new, next, lookup_symbol_from_return_addr, or_unknown, trace_lines}

-- The frames that start at `rbp`: each holds the address of the frame of its caller, 0 in the last
-- one, and behind it the return address.
pub data Frames (load : ℕ → ℕ) : (rbp : ℕ) → List ℕ → Type 0 where
  last : {rbp : ℕ} → load rbp ≡ 0 → Frames load rbp (load (rbp + 8) ∷ [])
  called :
      {rbp : ℕ} {addrs : List ℕ}
      → load rbp ≢ 0
      → Frames load (load rbp) addrs
      → Frames load rbp (load (rbp + 8) ∷ addrs)

-- The lines of a trace: a function beside the address at which it was called, which lies in the
-- function of the next line.
abbrev pub lines_of : (name_of : ℕ → Str) → Str → List ℕ → List (Str × ℕ) × Str
lines_of name_of func_name [] = ([], func_name)
lines_of name_of func_name (addr ∷ addrs) =
    let (lines, end) = lines_of name_of (name_of addr) addrs in ((func_name, addr) ∷ lines, end)

module _ (is_utf8 : List ℕ → Bool) (modules : Option (List Module)) (virt_begin : ℕ)
    (answer : ℕ → Option Str)
    (answers : (addr : ℕ)
      → lookup_symbol_from_return_addr is_utf8 modules virt_begin addr ≡ done (answer addr)) where
  trace_lines-called :
      (load : ℕ → ℕ) {rbp : ℕ} (fuel : ℕ) {rest : List (Str × ℕ) × Str}
      → load rbp ≢ 0
      → (func_name : Str)
      → trace_lines is_utf8 modules virt_begin fuel load
          (new (load rbp))
          (or_unknown (answer (load (rbp + 8))))
        ≡ done (some rest)
      → trace_lines is_utf8 modules virt_begin (suc fuel) load (new rbp) func_name
        ≡ done (some ((func_name, load (rbp + 8)) ∷ rest.0, rest.1))
  unfolding trace_lines next
  trace_lines-called load {rbp = rbp} fuel more func_name h =
      let on : (load rbp == 0) ≡ false = ground (arith, more) in
      rw (answers (load (rbp + 8)), on, h) refl

  trace_lines-last :
      (load : ℕ → ℕ) {rbp : ℕ}
      → load rbp ≡ 0
      → (func_name : Str)
      → trace_lines is_utf8 modules virt_begin 2 load (new rbp) func_name
        ≡ done (some ((func_name, load (rbp + 8)) ∷ [], or_unknown (answer (load (rbp + 8)))))
  unfolding trace_lines next
  trace_lines-last load {rbp = rbp} ends func_name = rw (answers (load (rbp + 8)), ends) refl

  -- Over frames that end, and with lookups that do not panic, the panic handler's loop
  -- ends, on fuel for one round more than there are frames, and prints one line for each frame, in their
  -- order: the function beside the return address, which names the function of the next line,
  -- or `unknown_func` where no symbol is found.
  pub trace_lines-Frames :
      {load : ℕ → ℕ} {rbp : ℕ} {addrs : List ℕ}
      → Frames load rbp addrs
      → (func_name : Str)
      → trace_lines is_utf8 modules virt_begin (suc (length addrs)) load (new rbp) func_name
        ≡ done (some (lines_of (λ a. or_unknown (answer a)) func_name addrs))
  trace_lines-Frames {load = load} (last ends) func_name = trace_lines-last load ends func_name
  trace_lines-Frames {load = load} {rbp = rbp} (called {addrs = addrs} more frames) func_name =
      trace_lines-called load (suc (length addrs)) more func_name
        (trace_lines-Frames frames (or_unknown (answer (load (rbp + 8)))))
