-- ===== src/Memory.antt =====
-- src/memory: physical frames, page numbers and page tables.
pub mod Addr
pub mod Paging
pub mod FrameSource
pub mod Physical
pub mod Virt
pub mod Heap
