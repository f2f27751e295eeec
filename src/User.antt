-- ===== src/User.antt =====
-- User programs and their library (user/bin, user/lib).
pub mod Utf8
pub mod Shell
