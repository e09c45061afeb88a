-- ===== src/Task.antt =====
-- kernel/task
pub mod Scheduler
pub mod Timer
pub mod Pids
