-- ===== src/Kernel.antt =====
-- The kernel under kernel/.
pub mod Port
pub mod Ascii
pub mod Vga
pub mod Gdt
pub mod Idt
pub mod Pic
pub mod Interrupt
pub mod Pit
pub mod Devices
pub mod Multiboot
pub mod Entry
pub mod Rtc
pub mod Cpuid
pub mod Screen
