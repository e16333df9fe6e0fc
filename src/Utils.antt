-- ===== src/Utils.antt =====
-- The kernel's utilities: kernel/src/utils and kernel/include/utils.
pub mod Bitmap
pub mod Ringbuf
pub mod Vector
pub mod Str
pub mod Move
pub mod Hashmap
