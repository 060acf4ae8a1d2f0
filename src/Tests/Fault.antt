-- ===== src/Tests/Fault.antt =====
-- The screen behind a page fault.
use free_micro_nix.Base.{ℕ, ◌≡◌, refl, [], ◌++◌, arith, Returns, fault}
use free_micro_nix.Mem.{SameOutside}
use free_micro_nix.Kernel.Interrupt.{interrupt_handler, halted}
use free_micro_nix.Kernel.Vga.Print.Formatted.{Setting}
use free_micro_nix.Kernel.Vga.Print.Literal.{bytes}
use free_micro_nix.Kernel.Screen.{replay}
use free_micro_nix.Kernel.Screen.Replay.{IsLoaded}
use free_micro_nix.Kernel.Screen.Report.{AreWords, report, remainder}
use free_micro_nix.Kernel.Screen.Dumped.{dumped, IsReported, interrupt_handler-dumped}
use free_micro_nix.Tests.Boot.{booting, rom, address, holds, at_address, some_there}
use free_micro_nix.Tests.Machine.{silent, context, running}
use free_micro_nix.Tests.Screen.{cursor_at}

abbrev reporting : Setting
reporting = record booting { limit = 11; strings = λ p. bytes "Page Fault" }

abbrev texts : ℕ → ℕ
texts i = address "Page Fault"

report-IsLoaded : IsLoaded reporting address 200 (report texts (context 14))
unfolding IsLoaded bytes holds
report-IsLoaded = (
  at_address "Exception %x: %s (code %x)\n" (omega arith) refl,
  omega arith,
  (
    at_address "\nDumping Segment Registers:\n cs: %x ss: %x ds: %x" (omega arith) refl,
    omega arith,
    (
      at_address
          "\nDumping General Purpose Registers:\n edi: %x esi: %x ebp: %x ebx: %x edx: %x ecx: %x eax: %x"
          (omega arith) refl,
      omega arith,
      tt,
    ),
  ),
)

remainder-IsLoaded : IsLoaded reporting address 200 remainder
unfolding IsLoaded bytes holds
remainder-IsLoaded = (
  at_address "\nDumping Other Registers:\n eip: %x eflags: %x useresp: %x" (omega arith) refl,
  omega arith,
  (at_address "\nKernel Panic!\n" (omega arith) refl, omega arith, tt),
)

context-AreWords : AreWords (context 14)
context-AreWords = record {
  err_code = omega arith;
  cs = omega arith;
  ss = omega arith;
  ds = omega arith;
  edi = omega arith;
  esi = omega arith;
  ebp = omega arith;
  ebx = omega arith;
  edx = omega arith;
  ecx = omega arith;
  eax = omega arith;
}

page_fault-IsReported : IsReported reporting address 200 texts (context 14) "Page Fault"
unfolding bytes holds
page_fault-IsReported = record {
  entry = refl;
  somewhere = omega arith;
  here = refl;
  apart = at_address "Page Fault" (omega arith) refl;
  short = omega arith;
  words = context-AreWords;
  loaded = report-IsLoaded;
  last_loaded = remainder-IsLoaded;
}

interrupt_handler-dumped_example :
    (interrupt_handler silent texts (context 14) (running 7)
      ≡ halted (record (running 7) { log = [] ++ (report texts (context 14) ++ remainder) }))
    × Returns
        (λ u.
          (u.terminal ≡ dumped "Page Fault" (context 14) (cursor_at 3 4))
          × SameOutside 200 20 rom u.mem)
        (replay address 200 200 3000
          (report texts (context 14))
          (record { mem = rom; terminal = cursor_at 3 4; log = [] }))
    × (replay address 200 200 3000
          (report texts (context 14) ++ remainder)
          (record { mem = rom; terminal = cursor_at 3 4; log = [] })
        ≡ fault)
interrupt_handler-dumped_example =
    interrupt_handler-dumped silent texts (context 14) (running 7) "Page Fault" reporting address
      200 (cursor_at 3 4) page_fault-IsReported (λ i lt. some_there i)
