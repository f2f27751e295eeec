-- ===== src/Dev.antt =====
-- The drivers of kernel/dev.
pub mod Console
