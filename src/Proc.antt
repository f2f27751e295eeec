-- ===== src/Proc.antt =====
-- Processes (kernel/proc/proc.c).
pub mod Kernel
pub mod Keeps
pub mod Alloc
pub mod Sched
pub mod Life
