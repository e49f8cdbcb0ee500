-- ===== src/Tests/Devices.antt =====
-- Interrupts, devices and the console on small inputs.
use os_test.Prelude.{
  ℕ, ◌<◌, ◌≤◌, length, get_elem?, none, ◌+◌, ◌*◌, ◌/◌, ◌%◌, ◌^◌, ◌≡◌, ◌≢◌, ◌==◌, refl, true, some,
  List, [], ◌∷◌, arith, if◌then◌else◌, replicate,
}
use os_test.Prelude.Outcome.{done, panic}
use os_test.Interrupts.{InterruptGuard, guard, guard-transparent}
use os_test.Idt.{Idt, IdtEntryRaw, IdtEntry, to_raw, trap}
use os_test.Idt.Entry.{gate_of, gate_of-to_raw}
use os_test.Idt.Init.{Handler, plain, with_error, create_init_idt, create_init_idt-gate_of, wanted}
use os_test.Dev.Registers.{Registers}
use os_test.Dev.IoApic.{
  IoApicRedirectEntry, redirect_irq, fixed, logical, low_active, level_sensitive,
}
use os_test.Dev.IoApic.Layout.{IsRedirection, redirect_irq-entry}
use os_test.Dev.Hpet.{can_route_irq_to}
use os_test.Dev.LocalApic.{set_spurious_interrupt_irq, enable, disable}
use os_test.Dev.LocalApic.Fields.{spurious_fields}
use os_test.Display.Screen.{Screen}
use os_test.Display.Console.{Console, newline, print_char, write_str}
use os_test.Display.Console.Drawing.{IsAddressable}
use os_test.Display.Console.Cursor.{IsPlaced, write_str-done, print_char_at_edge}

-- A state that is the flags alone.
abbrev clear : ℕ → ℕ
clear flags = 0x46

abbrev raise : ℕ → ℕ
raise flags = 0x246

abbrev same : ℕ → ℕ
same flags = flags

abbrev reads_flags : ℕ → ℕ → ℕ × ℕ
reads_flags inner flags = (flags, flags)

abbrev guarded : InterruptGuard ℕ
guarded = record { inner = 5 }

guard-transparent_example : guard same clear raise guarded reads_flags 0x246 ≡ (0x246, 0x246)
guard-transparent_example = guard-transparent same clear raise guarded reads_flags 0x246

abbrev entry : IdtEntry
entry = record { entry_type = trap 0xffff_ffff_8010_2030; gdt_kernel_cs = 0x28 }

gate_of-to_raw_example : gate_of (to_raw entry) ≡ some entry
gate_of-to_raw_example = gate_of-to_raw entry (omega arith)

abbrev handlers : Handler → ℕ
handlers (plain i) = 0x1000 + i % 32
handlers (with_error i) = 0x2000 + i % 32

handlers_small : (h : Handler) → handlers h < 2 ^ 64
handlers_small (plain i) = omega arith
handlers_small (with_error i) = omega arith

create_init_idt-gate_of_example :
    (idt : Idt) × (create_init_idt handlers 0x28 ≡ done idt)
    × (length idt ≡ 256)
    × ((i : ℕ)
        → i < 32
        → (raw : IdtEntryRaw) × (get_elem? idt i ≡ some raw)
          × (gate_of raw ≡ some (wanted handlers 0x28 i)))
    × ((i : ℕ)
        → 32 ≤ i
        → i < 256
        → (raw : IdtEntryRaw) × (get_elem? idt i ≡ some raw) × (gate_of raw ≡ none))
create_init_idt-gate_of_example = create_init_idt-gate_of handlers 0x28 handlers_small

abbrev redirection : IoApicRedirectEntry
redirection = record {
  dest = 3;
  mask = true;
  trigger_mode = level_sensitive;
  interrupt_polarity = low_active;
  destination_mode = logical;
  delivery_mode = fixed;
  redirected_irq_num = 0x31;
}

-- A controller with its select register and its registers.
abbrev Apic : Type 0
Apic = ℕ × (ℕ → ℕ)

abbrev apic : Registers Apic
apic = record {
  load = λ s offset. if offset == 0 then s.0 else s.1 s.0;
  store = λ s offset val.
      if offset == 0 then (val, s.1) else (s.0, λ r. if r == s.0 then val else s.1 r);
}

abbrev register : Apic → ℕ → ℕ
register s r = s.1 r

apic_written : (s : Apic) (r val : ℕ) → register (apic.store (apic.store s 0 r) 0x10 val) r ≡ val
apic_written s r val = ground arith

apic_kept :
    (s : Apic) (r r' val : ℕ)
    → r' ≢ r
    → register (apic.store (apic.store s 0 r) 0x10 val) r' ≡ register s r'
apic_kept s r r' val ne = ground arith

abbrev blank : Apic
blank = (0, λ r. 0)

redirect_irq-entry_example :
    (after : Apic) × (redirect_irq apic blank 2 redirection ≡ done after)
    × IsRedirection (register after (2 * 2 + 0x10)) (register after (2 * 2 + 0x10 + 1)) redirection
redirect_irq-entry_example =
    redirect_irq-entry apic register apic_written apic_kept blank 2 redirection (omega arith)
      (omega arith)

-- Registers that hold what is stored.
abbrev plain_memory : Registers (ℕ → ℕ)
plain_memory = record {
  load = λ s reg. s reg;
  store = λ s reg val r. if r == reg then val else s r;
}

-- Timer 0 can be routed to the interrupts 2 and 8, and is routed to 2.
abbrev timer_registers : ℕ → ℕ
timer_registers r = if r == 0x100 then 0x104 * 2 ^ 32 + 2 * 2 ^ 9 else 0

can_route : can_route_irq_to plain_memory 0 timer_registers 8 ≡ done true
unfolding can_route_irq_to
can_route = refl

-- A framebuffer that counts its writes, and a font without dots.
abbrev count_write : ℕ → ℕ → ℕ → ℕ
count_write offset val writes = writes + 1

abbrev blank_font : List ℕ
blank_font = replicate 4096 0

abbrev vga : Screen ℕ
vga = record {
  framebuffer = 0;
  width = 640;
  height = 480;
  bytes_per_pixel = 4;
  bytes_per_row = 2560;
}

abbrev console : Console ℕ
console = record { screen = vga; cursor_pos = (9, 16); bg_color = 0; fg_color = 0xFF }

console-IsPlaced : IsPlaced console
console-IsPlaced = record {
  wide = omega arith;
  high = omega arith;
  column = refl;
  right = omega arith;
  below = omega arith;
}

spare : 640 % 9 ≢ 8
spare h = omega (arith, h)

vga-IsAddressable : IsAddressable vga
vga-IsAddressable = record { area = omega arith; across = omega arith; down = omega arith }

write_str-done_example :
    (after : Console ℕ) × (write_str count_write blank_font console (b'h' ∷ b'i' ∷ 10 ∷ [])
      ≡ done after)
    × IsPlaced after
write_str-done_example =
    write_str-done count_write blank_font (b'h' ∷ b'i' ∷ 10 ∷ []) console vga-IsAddressable refl
      spare console-IsPlaced

-- The last column of a screen 800 pixels wide.
abbrev svga : Screen ℕ
svga = record {
  framebuffer = 0;
  width = 800;
  height = 600;
  bytes_per_pixel = 4;
  bytes_per_row = 3200;
}

abbrev at_edge : Console ℕ
at_edge = record { screen = svga; cursor_pos = (792, 0); bg_color = 0; fg_color = 0xFF }

not_newline : b'h' ≢ newline
not_newline h = omega (arith, h)

print_char_at_edge_example : print_char count_write blank_font at_edge b'h' ≡ panic
print_char_at_edge_example = print_char_at_edge count_write blank_font at_edge b'h' refl not_newline

-- Registers that hold what is stored, and 0x1ff in each of them.
abbrev memory_registers : Registers (ℕ → ℕ)
memory_registers = record {
  load = λ s register. s register;
  store = λ s register val x. if x == register then val else s x;
}

abbrev all_ones : ℕ → ℕ
all_ones register = 0x1ff

spurious_fields_example :
    let set = set_spurious_interrupt_irq memory_registers all_ones 0x27 in
    let on = enable memory_registers set in
    (memory_registers.load set 0xF0 ≡ 0x1ff / 256 * 256 + 0x27)
    × (memory_registers.load on 0xF0 ≡ 0x1ff / 512 * 512 + 256 + 0x27)
    × (memory_registers.load (disable memory_registers on) 0xF0 ≡ 0x1ff / 512 * 512 + 0x27)
spurious_fields_example =
    spurious_fields memory_registers all_ones 0x27 (λ s val. refl) (omega arith) (omega arith)
