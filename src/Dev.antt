-- ===== src/Dev.antt =====
-- Devices: kernel/src/dev.
pub mod Cmos
pub mod Tty
