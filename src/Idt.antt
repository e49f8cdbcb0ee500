-- ===== src/Idt.antt =====
-- src/idt.rs: the interrupt descriptor table and its entries. A handler is its address.
pub mod Init
pub mod Entry
use os_test.Prelude.{
  ℕ, ◌/◌, ◌^◌, ◌%◌, ◌*◌, List, length, set, replicate, bit_and, u16, u32, ltb, if◌then◌else◌, ◌>>>◌,
}
use os_test.Prelude.Outcome.{Outcome, done, panic}

pub data IdtEntryType : Type 0 where
  interrupt trap : (handler : ℕ) → IdtEntryType

pub record IdtEntry : Type 0 where
  pub entry_type : IdtEntryType
  pub gdt_kernel_cs : ℕ

-- The layout that the processor reads.
pub record IdtEntryRaw : Type 0 where
  pub fn_ptr_low : ℕ
  pub gdt_kernel_cs : ℕ
  pub options : ℕ
  pub fn_ptr_mid : ℕ
  pub fn_ptr_high : ℕ
  pub reserved : ℕ

pub to_raw : IdtEntry → IdtEntryRaw
to_raw e =
    let fn_ptr : ℕ = elim e.entry_type [ interrupt f ↦ f | trap f ↦ f ] in
    record {
      fn_ptr_low = u16 (bit_and fn_ptr 0xffff);
      gdt_kernel_cs = e.gdt_kernel_cs;
      options = elim e.entry_type [ interrupt f ↦ 0x8E00 | trap f ↦ 0x8F00 ];
      fn_ptr_mid = u16 (fn_ptr >>> 16);
      fn_ptr_high = u32 (fn_ptr >>> 32);
      reserved = 0;
    }

-- The 256 entries of the table.
abbrev pub Idt : Type 0
Idt = List IdtEntryRaw

abbrev pub zeroed : IdtEntryRaw
zeroed = record {
  fn_ptr_low = 0;
  gdt_kernel_cs = 0;
  options = 0;
  fn_ptr_mid = 0;
  fn_ptr_high = 0;
  reserved = 0;
}

-- `Idt::init`
abbrev pub init : Idt
init = replicate 256 zeroed

unfoldable pub insert : Idt → ℕ → IdtEntry → Outcome Idt
unfolding to_raw
insert idt index entry =
    if ltb index (length idt) then done (set idt index (to_raw entry)) else panic
