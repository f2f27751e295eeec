-- ===== src/Core.antt =====
-- The helpers of kernel/core.
pub mod Strings
