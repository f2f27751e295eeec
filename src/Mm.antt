-- ===== src/Mm.antt =====
-- Physical memory and its users: the page allocator (kernel/mm/kalloc.c) and the Sv39 page tables
-- (kernel/mm/vm.c).
pub mod Mem
pub mod Kalloc
pub mod Pte
pub mod Vm
pub mod Copy
mod Tests
