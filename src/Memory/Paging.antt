-- ===== src/Memory/Paging.antt =====
-- src/memory/paging.rs: entries of page tables, page numbers, runs of pages, and the four-level
-- tables in memory.
pub mod Entry
pub mod Page
pub mod Iter
pub mod Search
pub mod Table
pub mod Tree
