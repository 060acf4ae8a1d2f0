-- ===== src/Tests.antt =====
-- Runs at concrete inputs: the functions of libc/string on a small memory, the numbers and the
-- printing, the text terminal, and the machine's tables, controllers, clock and interrupts.
pub mod Strings
pub mod Screen
pub mod Boot
pub mod Fault
pub mod Chip
pub mod Numbers
pub mod Machine
pub mod Running
pub mod Devices
pub mod Time
pub mod Processor
