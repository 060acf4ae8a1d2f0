-- ===== src/Libc/Number.antt =====
-- libc/stdlib: what converts between numbers and texts.
pub mod Numeral
pub mod Reverse
pub mod Format
