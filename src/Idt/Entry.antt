-- ===== src/Idt/Entry.antt =====
-- What the processor reads from the entries that src/idt.rs writes.
use os_test.Prelude.{
  ℕ, ◌+◌, ◌*◌, ◌/◌, ◌%◌, ◌^◌, ◌<◌, ◌≡◌, ap, arith, ◌==◌, if◌then◌else◌, Option, some, none, bit_and,
}
use os_test.Prelude.Bits.{bit_and-ones}
use os_test.Idt.{IdtEntry, IdtEntryType, IdtEntryRaw, interrupt, trap, to_raw}

-- The gate that the processor finds: the handler is put together from its three parts, and the type
-- is bits 8 to 12 of the options, 14 for an interrupt gate and 15 for a trap gate, with bit 15 for
-- a present entry.
abbrev pub gate_of : IdtEntryRaw → Option IdtEntry
gate_of raw =
    let handler = raw.fn_ptr_high * 2 ^ 32 + raw.fn_ptr_mid * 2 ^ 16 + raw.fn_ptr_low in
    if raw.options / 2 ^ 15 % 2 == 1
    then if raw.options / 2 ^ 8 % 2 ^ 5 == 14
      then some (record { entry_type = interrupt handler; gdt_kernel_cs = raw.gdt_kernel_cs })
      else if raw.options / 2 ^ 8 % 2 ^ 5 == 15
      then some (record { entry_type = trap handler; gdt_kernel_cs = raw.gdt_kernel_cs })
      else none
    else none

abbrev pub handler_of : IdtEntryType → ℕ
handler_of (interrupt f) = f
handler_of (trap f) = f

parts :
    (f : ℕ)
    → f < 2 ^ 64
    → (f / 2 ^ 32) % 2 ^ 32 * 2 ^ 32 + (f / 2 ^ 16) % 2 ^ 16 * 2 ^ 16 + bit_and f 0xffff % 2 ^ 16
      ≡ f
parts f h = rw (bit_and-ones 16 f) (omega arith)

reads :
    (t : IdtEntryType) (cs : ℕ)
    → handler_of t < 2 ^ 64
    → gate_of (to_raw (record { entry_type = t; gdt_kernel_cs = cs }))
      ≡ some (record { entry_type = t; gdt_kernel_cs = cs })
unfolding to_raw
reads (interrupt f) cs h =
    ap (λ (p : ℕ). some (record { entry_type = interrupt p; gdt_kernel_cs = cs })) (parts f h)
reads (trap f) cs h =
    ap (λ (p : ℕ). some (record { entry_type = trap p; gdt_kernel_cs = cs })) (parts f h)

-- The processor reads back the entry that was written, whose handler is an address of 64 bits.
pub gate_of-to_raw : (e : IdtEntry) → handler_of e.entry_type < 2 ^ 64 → gate_of (to_raw e) ≡ some e
gate_of-to_raw e h = reads e.entry_type e.gdt_kernel_cs h
