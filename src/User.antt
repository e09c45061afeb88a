-- ===== src/User.antt =====
-- userspace
pub mod Malloc
