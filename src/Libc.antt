-- ===== src/Libc.antt =====
-- The C library: libc/src.
pub mod Malloc
pub mod Strtox
pub mod Gmtime
pub mod Printf
