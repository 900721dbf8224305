-- ===== src/Mm.antt =====
-- Kernel memory management: kernel/source/mm.
pub mod Pmm
pub mod Heap
