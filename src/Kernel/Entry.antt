-- ===== src/Kernel/Entry.antt =====
-- kernel/kernel.c, and Initialize_RTC and the readers of kernel/x86/rtc.c.
pub mod Loaded
pub mod Order
pub mod Transcript
pub mod Periodic
pub mod Programmed
use free_micro_nix.Kernel.Vga.{color_code, light_blue}
use free_micro_nix.Kernel.Multiboot.{MultibootInfo, multiboot_bootloader_magic}
use free_micro_nix.Base.{
  ℕ, ◌/◌, bit_or, some, List, [], ◌∷◌, ltb, ◌==◌, if◌then◌else◌, Run, ok, u8, ◌>>=◌,
}
use free_micro_nix.Kernel.Port.{
  Bus, Log, outb, inb, colored, printed, terminal_initialized, record_event, say,
}
use free_micro_nix.Kernel.Gdt.{GdtState, initialize_gdt}
use free_micro_nix.Kernel.Idt.{IdtState, install_idt, interrupt_handler_installer}
use free_micro_nix.Kernel.Interrupt.{
  Context, System, rtc_handler, irq8, install_interrupt_handler, disable_interrupts,
  enable_interrupts,
}
use free_micro_nix.Kernel.Pit.{pit_8254_wait, initialize_pit_8254}
use free_micro_nix.Kernel.Devices.{speaker_beep}

-- The globals of the kernel.
pub record Machine : Type 0 where
  pub system : System
  pub segments : GdtState
  pub gates : IdtState

-- What the linker and the boot loader decide: the addresses of the two tables, of the stubs, and of
-- the literals "MB" and "KB".
pub record Layout : Type 0 where
  pub gdt_address : ℕ
  pub idt_address : ℕ
  pub stub : ℕ → ℕ
  pub isr120 : ℕ
  pub megabytes : ℕ
  pub kilobytes : ℕ

abbrev pub color_light_blue : ℕ
color_light_blue = color_code light_blue

-- A call of kprintf or of Terminal_Set_Color
abbrev pub logged : (Log → Log) → System → System
logged f s = record s { log = f s.log }

unfoldable pub get_rtc_ticks : System → ℕ
get_rtc_ticks s = s.rtc_ticks

unfoldable pub initialize_rtc : Bus → System → Run System
initialize_rtc bus s = do
  s ← install_interrupt_handler irq8 (some rtc_handler) s
  let log = outb 0x70 0x8B (disable_interrupts s.log)
  let (prev, log) = inb bus 0x71 log
  let log = outb 0x71 (u8 (bit_or prev 0x40)) (outb 0x70 0x8B log)
  ok (record s { log = say "Real Time Clock Initialized\n" (enable_interrupts log) })

-- The start of kmain for the right magic number, up to Enable_Interrupts.
unfoldable pub set_up : Bus → Layout → MultibootInfo → Machine → Run Machine
unfolding get_rtc_ticks
set_up bus layout mbi m = do
  let s =
      logged
        (λ log.
          record_event (colored 7)
            (say "FreeMicroNix Version 0.1\n" (record_event (colored color_light_blue) log)))
        m.system
  s ← initialize_pit_8254 s
  (segments, log) ← initialize_gdt layout.gdt_address m.segments s.log
  let (gates, log) = install_idt layout.idt_address m.gates log
  let (gates, log) = interrupt_handler_installer bus layout.stub layout.isr120 gates log
  let suffix = if ltb 100000 mbi.mem_upper then layout.megabytes else layout.kilobytes
  let divisor = if ltb 100000 mbi.mem_upper then 1000 else 1
  let log =
      record_event
        (printed "Available Memory: %d%s (%dKB)\n"
          (mbi.mem_upper / divisor ∷ suffix ∷ mbi.mem_upper ∷ []))
        log
  let log = enable_interrupts (say "Interrupts Enabled\n" log)
  ok (record { system = record s { log = log }; segments = segments; gates = gates })

-- kmain up to the loop at its end, which halts for ever, or up to its return for a wrong magic number.
-- The list is that of the interrupts that arrive while the code waits.
module _ (bus : Bus) (exception_messages : ℕ → ℕ) where
  unfoldable pub run_tests : List Context → System → Run (System × List Context)
  run_tests arriving s = do
    let s = logged (say "Testing Programmable Interval Timer: Waiting 2 seconds\n") s
    (s, arriving) ← pit_8254_wait bus exception_messages 2000 arriving s
    let s = logged (say "Waited 2 seconds\n") s
    let s = logged (record_event (printed "RTC Ticks: %d\n" (get_rtc_ticks s ∷ []))) s
    let s = logged (say "Testing Internal PC Speaker\nYou will hear a beep if present\n") s
    (s, arriving) ← speaker_beep bus exception_messages arriving s
    ok (logged (say "System Loaded\n") s, arriving)

  unfoldable pub kmain :
      Layout → ℕ → MultibootInfo → List Context → Machine → Run (Machine × List Context)
  unfolding set_up run_tests
  kmain layout magic mbi arriving m = do
    let m = record m { system = logged (record_event terminal_initialized) m.system }
    let refused =
        logged
          (λ log.
            record_event (colored 7)
              (say "INVALID_MULTIBOOT NUMBER!\n" (record_event (colored 12) log)))
          m.system
    let loaded = do
      m ← set_up bus layout mbi m
      (s, arriving) ← run_tests arriving m.system
      ok (record m { system = s }, arriving)
    if magic == multiboot_bootloader_magic
        then loaded
        else ok (record m { system = refused }, arriving)
