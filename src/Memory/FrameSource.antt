-- ===== src/Memory/FrameSource.antt =====
-- The trait `PhysicalAllocator` of src/memory/physical.rs, by which the page tables and the page
-- allocator use the frames, and its implementation by the bitmap allocator.
pub mod Supply
pub mod Claims
use os_test.Prelude.{ℕ, Option}
use os_test.Prelude.Outcome.{Outcome}
use os_test.Memory.Addr.{PhyAddr}
use os_test.Memory.Physical
use os_test.Memory.Physical.{BasicPhysicalAllocator}

pub record PhysicalAllocator (A : Type 0) : Type 0 where
  pub allocate_frame : A → Outcome (A × PhyAddr)
  pub free_frame : A → PhyAddr → Outcome A
  pub alloc_phy_addr : A → PhyAddr → (frame_count : ℕ) → Outcome (A × Option PhyAddr)
  pub frame_size : ℕ

abbrev pub basic : PhysicalAllocator BasicPhysicalAllocator
basic = record {
  allocate_frame = Physical.allocate_frame;
  free_frame = Physical.free_frame;
  alloc_phy_addr = Physical.alloc_phy_addr;
  frame_size = Physical.frame_size;
}
