-- ===== src/Libc/Str.antt =====
-- libc/string: one child for each group of functions.
pub mod Text
pub mod Block
pub mod Scan
pub mod Compare
pub mod Span
pub mod Find
pub mod Copy
pub mod Token
