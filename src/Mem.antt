-- ===== src/Mem.antt =====
-- The kernel's memory management: kernel/src/mem.
pub mod Pmm
pub mod Slab
pub mod Vmm
