-- ===== src/Lib.antt =====
-- FreeMicroNix, a kernel for 32-bit x86 with a small C library.
--
-- The parts:
--   * Base: lemmas on lists, tests, machine words, bitwise operations, and the outcome of a run.
--   * Mem: memory as a partial map from addresses to bytes.
--   * Libc: the functions of libc/string. Block has memcpy.c, memmove.c and memset.c; Scan has
--     strlen.c, lfind.c and strchr.c; Compare has memcmp.c and strcmp.c; Span has strspn.c,
--     strcspn.c and strpbrk.c; Find has strstr.c; Copy has strcpy.c, strcat.c and strncpy.c; Token
--     has strtok.c and strtok_r.c, and its Split and Reentrant the sequence of calls that these
--     two are made for. Text says on lists what these compute, and Text/Every when all characters
--     of a numeral pass a test. Number has libc/stdlib: Reverse has strreverse.c, Format has
--     uitoa.c, u64toa.c, itoa.c, atoi.c and abs.c; Numeral says what the numeral of a number is.
--     Process has exit.c, abort.c, putchar.c and __init_libc.c.
--   * Kernel: Port has kernel/include/x86/io.h; Ascii has kernel/include/x86/ascii.h; Vga has
--     kernel/x86/video/vga.c and vga.h, Vga/Color what a word of the text buffer shows, Vga/Typing
--     where each character goes, and Vga/Cursor where the cursor of the video hardware is; Gdt has
--     kernel/x86/gdt/gdt.c and gdt.h; Idt has kernel/x86/isa/interrupt/idt.c and the installation
--     of the gates in interrupt.c; Pic has kernel/x86/isa/8259.c; Interrupt has the rest of
--     kernel/x86/isa/interrupt/interrupt.c, with RTC_Handler of kernel/x86/rtc.c; Pit has
--     kernel/x86/isa/8254.c; Devices has kernel/x86/nmi.c, kernel/x86/sound/speaker.c and
--     kernel/kernel/reboot.c; Entry has kernel/kernel.c and Initialize_RTC, Entry/Transcript what
--     kmain says, Entry/Periodic the clock's interrupt behind Initialize_RTC, and Entry/Programmed
--     the state of the devices behind kmain. Screen runs vga.c for each entry of a log that the
--     screen is to show; Screen/Lines says what lines of text on the screen are, Screen/Seen what
--     the adapter makes of them, and Screen/Booted and Screen/Refused what is there behind kmain,
--     and Screen/Dumped what is there behind an exception. Vga/Print has the printing functions of
--     vga.c, which use Mem and Libc; Vga/Print/Formatted says as a text what a format shows.
--     Interrupt/Clock has the steps that change the kernel's globals, Interrupt/Switch what the
--     processor asks of a frame, and Interrupt/Exception the texts of the exceptions. Rtc has the
--     rest of kernel/x86/rtc.c, Cpuid has kernel/x86/cpuid.c, and Multiboot what kmain is told, of
--     kernel/include/x86/multiboot.h. panic of kernel/kernel/panic.c is in Interrupt.
--   * The hardware: Port/Device runs a device along a log. The devices are those of Port/Cmos,
--     behind the ports 0x70 and 0x71, Pic/Programmed, the interrupt controllers, Pit/Counter, the
--     counters of the timer, and Vga/Cursor; each is written after its documentation and not after
--     the code.
--   * Tests: each property at a concrete input.
--
-- A C function is a function of the same name in lower case. It takes the globals or the memory that
-- it touches and returns them changed; Terminal_Putch is `terminal_putch : ℕ → Terminal → Terminal`.
-- A pointer is its address. An access outside every object, a table index out of range and a division
-- by zero end in `fault`. What the kernel does to the hardware is a log, and what the hardware answers
-- is a function of that log, a parameter. An interrupt finds its routine in the table `routines`,
-- and the routine changes the globals that `System` holds; PIT_8254_Wait sleeps until such an
-- interrupt comes, so it takes the list of those that arrive.
--
-- A loop with a counter is recursion on the counter. A loop over a string runs on fuel and ends in
-- `timeout` where that is used up; the theorems ask for more fuel than the string has characters,
-- one round for each and one for the terminator, and show that the function then returns.
--
-- kprintf takes its further arguments as a list, and needs fuel for its format, for the longest string
-- and for the 20 bytes of its buffer. RTC_Update takes as an argument what the variable last_day
-- holds, since the code never sets it; the structures that it writes to are a map from addresses.
--
-- kmain, panic and the reboot are modelled up to the loops at their ends, which halt for ever.
--
-- Addresses do not wrap around in Libc: an object lies within the address space. The memory behind
-- the screen is part of the buffer. A call of kprintf from outside vga.c is an entry of the log;
-- Screen/Replay runs these calls in their order, each with kprintf's buffer at the same address.
--
-- Not modelled: the assembly files (their effect is an entry of the log, the addresses of the stubs
-- are parameters), the boot sector, the build, and the other declarations of multiboot.h, which no code
-- uses; and the interrupts that arrive, from the sti of kmain on, elsewhere than at the hlt where
-- PIT_8254_Wait sleeps.
pub mod Base
pub mod Kernel
pub mod Libc
pub mod Mem
pub mod Tests
