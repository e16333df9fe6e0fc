-- ===== src/Sys.antt =====
-- The kernel's process, scheduling and timing code: kernel/src/sys.
pub mod Time
pub mod Sched
pub mod Files
pub mod Process
