-- ===== src/Fs.antt =====
-- Files: kernel/src/fs.
pub mod Fd
pub mod Tmpfs
pub mod Vfs
