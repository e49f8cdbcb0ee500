-- ===== src/Lib.antt =====
-- A verification library of the kernel os_test: its memory management, its file systems, its
-- interrupt tables, the registers of its devices and its console.
--
-- The parts and how they interact. The physical allocator hands out frames of memory. The page
-- tables map pages to frames and take frames of it for their own levels. The virtual page allocator
-- finds free pages in the tables and maps them to frames, and the global allocator cuts pages into
-- the allocations of the program. The RAM file system stores files and directories on the heap and
-- takes paths apart; the virtual file system sends the paths to the file system that is mounted
-- there. The interrupt table, the interrupt controllers and the timer are set up through registers,
-- and the console draws text on the screen. A processor that comes online puts its handlers into the
-- interrupt table and calibrates its local timer by a sleep, which reads the high precision timer. The
-- panic handler walks the frames of the stack and looks their functions up in the symbol file.
--
-- The files and the code:
--   Prelude          names, lists, words with `&` and `|`, and the outcome of code that can panic
--   Memory/Addr      src/memory/physical.rs (PhyAddr) and src/memory/virt.rs (VirtAddr)
--   Memory/Physical  src/memory/physical.rs: BasicPhysicalAllocator; Frame, Range and Claim for its laws
--   Memory/FrameSource  the trait PhysicalAllocator of that file, as a record of operations; Supply
--                    for the laws that its clients rely on, filled by the bitmap allocator, and
--                    Claims for the claim of a run of frames
--   Memory/Paging    src/memory/paging.rs: Entry (PageTableEntry), Page, Iter (PageIter), Search
--                    (find_free_pages) and Table (the walk of the levels and map_page_unchecked,
--                    with Enter for one level, Map for all of them and Other for other pages);
--                    Tree has the tables as a tree, and what they say of each page
--   Memory/Virt      src/memory/virt.rs: BasicPageAllocator; Alloc and Dealloc for the operations of
--                    these names, Region, Shape and Undo for map_physical, Live for runs of calls,
--                    Area for init
--   Memory/Heap      src/memory/allocator.rs
--   Fs/Str, Fs/FilePath  src/fs/path.rs
--   Fs/VfsError, Fs/Vfs  src/fs/vfs.rs
--   Fs/Ramfs         src/fs/ramfs.rs: the store, Ops (the operations), Data (the bytes of files), Walk
--                    (the way along a path), Entries, Behaviour, Create, Invariant (well-formed
--                    stores and the runs that keep them so), Reached and Effects (laws for these
--                    stores)
--   Interrupts, Idt  src/interrupts.rs, src/idt.rs and create_init_idt of src/lib.rs
--   Dev              src/dev/ioapic.rs, src/dev/local_apic.rs and src/dev/hpet.rs; Base for the
--                    addresses of their registers
--   Display          src/screen.rs and src/console.rs, with Console/Drawing for a character and
--                    Console/Cursor for the text
--   Time             src/time.rs: Sleep for poll_sleep, Timer for the rest
--   StackTrace       src/stack_trace.rs and the trace of src/panic.rs: Symbols (lookup_symbol), Lookup and
--                    Nearest for its laws, Frames for the trace
--   TestRunner       src/test.rs
--   Cpu              src/cpu.rs: Gates for the interrupts, Online for cpu_main_rs, Tick for hpet_init
--   Acpi             src/acpi.rs
--   QemuLog          src/qemu_log.rs
--   KernelImage      the addresses of the image, of src/lib.rs
--   KernelTests      the tests that the kernel runs itself, as runs of the model
--   Tests            runs on small inputs
--
-- State and operations. An operation takes the state that it works on and gives it back with its
-- result; what is behind a lock is one state, since the lock is held for the whole operation. Code
-- that can panic has an `Outcome`, with the overflow checks of the dev profile; a `Result` of the
-- source is a value. An `Arc` of the RAM file system is an index into a store that only grows. The
-- memory of the page tables is a function from addresses to words, that of the framebuffer and the
-- registers of the devices are parameters with their loads and stores. Instructions of the processor,
-- the offset of the direct map, the font, the tables of the firmware, the symbol file and the readings of
-- a clock are parameters.
--
-- Bounds and fuel. Numbers are natural numbers, and casts, shifts and overflow checks are written
-- out. The direct map is at any offset above 0, that of the upper half of the addresses too, from
-- which the frames of the allocator, below a bound of its own, have addresses below 2^64. `find_dir` and
-- `find_file` run on one more than the length of the path, since each step takes a slash off it.
-- The search for free pages runs on 2 ^ 36 rounds, the number of canonical page numbers, and the
-- loops over a `PageIter` on more than the number of its pages; the laws of these loops show that
-- the fuel is enough. `poll_sleep` runs on as many rounds as there are
-- readings up to one by which its duration has passed; a trace runs on one round more than there are
-- frames, and the test runner on one more than there are tests.
--
-- Not modelled: the requests to the boot loader, the assembly of src/arch_x86_64.rs, src/io.rs and
-- src/msr.rs, the start of other processors in src/cpu.rs, the library that reads the ACPI tables,
-- src/hexdump.rs, which is a changed copy of a library, and the debug output.
pub mod Prelude
pub mod Memory
pub mod Fs
pub mod Interrupts
pub mod Idt
pub mod Dev
pub mod Display
pub mod Time
pub mod StackTrace
pub mod TestRunner
pub mod Cpu
pub mod Acpi
pub mod QemuLog
pub mod KernelImage
pub mod KernelTests
pub mod Tests
