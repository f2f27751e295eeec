-- ===== src/Sync.antt =====
-- The locks of kernel/sync.
pub mod Spinlock
