-- ===== src/Tests/Areas.antt =====
-- A memory map with two usable areas, for src/memory/virt.rs.
use mathlib.Core.List.{Memᴰ}
use mathlib.Core.List.Memᴰ.{head, tail, not-nil}
use os_test.Prelude.{◌%◌, ◌≡◌, refl, true, false, some, List, [], ◌∷◌, arith}
use os_test.Prelude.Outcome.{done}
use os_test.Memory.Physical.{BasicPhysicalAllocator, frame_size}
use os_test.Memory.Virt.{Inner}
use os_test.Memory.Virt.Area.{MapEntry, init}
use os_test.Memory.Virt.Area.Longest.{IsLongest, init-IsLongest}

abbrev low : MapEntry
low = record { base = 0x1000; length = 0x9f000; usable = true }

abbrev firmware : MapEntry
firmware = record { base = 0xf0000; length = 0x80000000; usable = false }

abbrev main : MapEntry
main = record { base = 0x100000; length = 0x7fe00000; usable = true }

abbrev memory_map : List MapEntry
memory_map = low ∷ firmware ∷ main ∷ []

abbrev fresh : Inner BasicPhysicalAllocator
fresh = record {
  physical_allocator = record { bitmap = false ∷ false ∷ []; offset = 0; limit = 0 };
  last_page_alloc = 1;
  mem = λ at. 0;
}

aligned : (e : MapEntry) → Memᴰ e memory_map → e.usable ≡ true → e.base % frame_size ≡ 0
aligned e (head same) used = rw same refl
aligned e (tail (head same)) used = rw same refl
aligned e (tail (tail (head same))) used = rw same refl
aligned e (tail (tail (tail m))) used = absurd (not-nil m)

init-IsLongest_example :
    (e : MapEntry) × (init (some memory_map) fresh
      ≡ done (record fresh {
        physical_allocator = record fresh.physical_allocator { offset = e.base; limit = e.length };
      }))
    × IsLongest memory_map e
init-IsLongest_example = init-IsLongest memory_map low fresh (head refl) refl aligned (omega arith)
