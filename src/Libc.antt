-- ===== src/Libc.antt =====
-- The C library.
pub mod Str
pub mod Number
pub mod Process
