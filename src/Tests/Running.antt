-- ===== src/Tests/Running.antt =====
-- The timer, the interrupts and kmain on a machine whose ports all answer 0.
use free_micro_nix.Base.{
  ℕ, zero, suc, ◌+◌, ◌≤◌, ◌≡◌, refl, ◌≢◌, true, none, some, List, [], ◌∷◌, ◌++◌, arith, Returns,
}
use free_micro_nix.Kernel.Port.Visible.{messages}
use free_micro_nix.Kernel.Entry.Transcript.{greeting, report, kmain-messages}
use free_micro_nix.Kernel.Multiboot.{MultibootInfo, multiboot_bootloader_magic, elf_sec}
use free_micro_nix.Kernel.Entry.Loaded.{IsFresh}
use free_micro_nix.Kernel.Gdt.Laws.{segments}
use free_micro_nix.Kernel.Interrupt.{
  interrupt_handler, install_syscall_handler, back, stu_handler, stk_handler,
}
use free_micro_nix.Kernel.Interrupt.Syscall.{install_syscall_handler-unserved}
use free_micro_nix.Kernel.Interrupt.Clock.{Reach, here, next, interrupt, Agree, Reach-Agree}
use free_micro_nix.Kernel.Interrupt.{Context, irq_handler}
use free_micro_nix.Kernel.Port.Commands.{commands}
use free_micro_nix.Kernel.Pit.Wait.{ticks_of, ends_in_tick, IsQuiet, pit_8254_wait-ticks}
use free_micro_nix.Kernel.Pit.{pit_8254_wait}
use free_micro_nix.Kernel.Interrupt.Dispatch.{conversation, irq_handler-commands}
use free_micro_nix.Kernel.Entry.Loaded.{EndsWith, kmain-EndsWith}
use free_micro_nix.Kernel.Entry.{Layout, Machine, kmain}
use free_micro_nix.Tests.Machine.{
  silent, context, running, running-IsClocked, empty_gdt, empty_idt, stub_at,
}
use free_micro_nix.Kernel.Devices.Speaker.{Sounds}

abbrev wakings : List Context
wakings = context 32 ∷ context 40 ∷ context 32 ∷ context 32 ∷ []

wakings-IsQuiet : IsQuiet wakings
unfolding IsQuiet
wakings-IsQuiet = (omega arith, (omega arith, (omega arith, (omega arith, tt))))

two_ticks : 2 ≤ ticks_of wakings
unfolding ticks_of
two_ticks = omega arith

pit_8254_wait-ticks_example :
    Returns
      (λ (t, left).
        (t.timer_ticks ≡ 9)
        × (ticks_of wakings ≡ 2 + ticks_of left)
        × IsQuiet left
        × (t.routines ≡ (running 7).routines)
        × (used : List Context) × (wakings ≡ used ++ left)
        × (ticks_of used ≡ 2)
        × (ends_in_tick used ≡ true))
      (pit_8254_wait silent (λ i. 0) 2 wakings (running 7))
pit_8254_wait-ticks_example =
    pit_8254_wait-ticks silent (λ i. 0) 2 wakings (running 7) (running-IsClocked 7) wakings-IsQuiet
      (omega arith) two_ticks

irq_handler-commands_example :
    commands (irq_handler silent (context 47) (running 7)).1.log
    ≡ commands [] ++ conversation silent 47 []
irq_handler-commands_example = irq_handler-commands silent (context 47) (running 7)

abbrev pub ticking : ℕ → List Context
ticking zero = []
ticking (suc n) = context 32 ∷ ticking n

pub ticks_of-ticking : (n : ℕ) → ticks_of (ticking n) ≡ n
unfolding ticks_of
ticks_of-ticking zero = refl
ticks_of-ticking (suc n) = ground (arith, ticks_of-ticking n)

pub ticking-IsQuiet : (n : ℕ) → IsQuiet (ticking n)
unfolding IsQuiet
ticking-IsQuiet zero = tt
ticking-IsQuiet (suc n) = (omega arith, ticking-IsQuiet n)

abbrev pub fresh : Machine
fresh = record {
  system = record {
    routines = λ i. none;
    timer_ticks = 0;
    timer_seconds = 0;
    rtc_ticks = 0;
    log = [];
  };
  segments = empty_gdt;
  gates = empty_idt;
}

abbrev pub layout : Layout
layout = record {
  gdt_address = 0x105000;
  idt_address = 0x106000;
  stub = stub_at;
  isr120 = 0x100078;
  megabytes = 0x107000;
  kilobytes = 0x107003;
}

-- What a loader tells of a machine with 128 megabytes.
abbrev pub boot_info : MultibootInfo
boot_info = record {
  flags = 1;
  mem_lower = 639;
  mem_upper = 130048;
  boot_device = 0;
  cmdline = 0;
  mods_count = 0;
  mods_addr = 0;
  u = elf_sec (record { num = 0; size = 0; addr = 0; shndx = 0 });
  mmap_length = 0;
  mmap_addr = 0;
  drives_length = 0;
  drives_addr = 0;
  config_table = 0;
  boot_loader_name = 0;
  apm_table = 0;
  vbe_control_info = 0;
  vbe_mode_info = 0;
  vbe_mode = 0;
  vbe_interface_seg = 0;
  vbe_interface_off = 0;
  vbe_interface_len = 0;
}

kmain-EndsWith_example :
    Returns
      (λ (t, left).
        (t.system.timer_ticks ≡ 4000)
        × (ticks_of (ticking 4100) ≡ 4000 + ticks_of left)
        × EndsWith "System Loaded\n" t.system.log)
      (kmain silent (λ i. 0) layout multiboot_bootloader_magic boot_info (ticking 4100) fresh)
kmain-EndsWith_example =
    kmain-EndsWith silent (λ i. 0) layout boot_info (ticking 4100) fresh
      (record { routines = λ i. refl; ticks = refl; entries = refl }) (ticking-IsQuiet 4100)
      (omega (arith, ticks_of-ticking 4100))

kmain-messages_example :
    Returns
      (λ (t, left).
        (messages t.system.log ≡ messages [] ++ (greeting layout boot_info ++ report 0))
        × Sounds [] t.system.log)
      (kmain silent (λ i. 0) layout multiboot_bootloader_magic boot_info (ticking 4100) fresh)
kmain-messages_example =
    kmain-messages silent (λ i. 0) layout boot_info (ticking 4100) fresh
      (record { routines = λ i. refl; ticks = refl; entries = refl }) (ticking-IsQuiet 4100)
      (omega (arith, ticks_of-ticking 4100))

pub fresh-IsFresh : IsFresh fresh
fresh-IsFresh = record { routines = λ i. refl; ticks = refl; entries = refl }

install_syscall_handler-unserved_example :
    Returns
      (λ t.
        (t.routines 120 ≡ some stu_handler)
        × (t.routines 121 ≡ some stk_handler)
        × ((i : ℕ) → i ≢ 120 → i ≢ 121 → t.routines i ≡ (running 7).routines i)
        × ((c : Context) → 48 ≤ c.int_no → interrupt_handler silent (λ i. 0) c t ≡ back c t))
      (install_syscall_handler (running 7))
install_syscall_handler-unserved_example =
    install_syscall_handler-unserved silent (λ i. 0) (running 7)

ticked_reached : Reach silent (λ i. 0) (running 0) 1 (irq_handler silent (context 32) (running 0)).1
unfolding interrupt_handler
ticked_reached =
    next here (interrupt (context 32) (irq_handler silent (context 32) (running 0)).0 refl)

Reach-Agree_example : Agree silent (λ i. 0) 1 (irq_handler silent (context 32) (running 0)).1
Reach-Agree_example = Reach-Agree silent (λ i. 0) refl refl ticked_reached (omega arith)
