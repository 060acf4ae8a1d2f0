-- ===== src/Tests/Machine.antt =====
-- The tables, the controllers, the timer and the interrupts of a machine whose ports all answer 0.
use free_micro_nix.Base.{
  ℕ, ◌+◌, ◌/◌, ◌%◌, ◌^◌, ◌≤◌, ◌<◌, ◌≡◌, refl, ◌≢◌, false, none, some, [], ◌∷◌, map, arith, ◌==◌,
  if◌then◌else◌, Returns,
}
use free_micro_nix.Kernel.Port.{Bus}
use free_micro_nix.Kernel.Gdt.{GdtEntry, TssEntry, GdtState, descriptor, initialize_gdt}
use free_micro_nix.Kernel.Idt.{IdtState, zero_entry, install_gates, install_idt}
use free_micro_nix.Kernel.Interrupt.{Context, System, pit_8254_handler, rtc_handler}
use free_micro_nix.Kernel.Gdt.Laws.{base_of, limit_of, flags_of, descriptor-decode, decode}
use free_micro_nix.Kernel.Pit.Wait.{IsClocked}
use free_micro_nix.Kernel.Idt.Laws.{Leads, IsMistyped, is_present, install_gates-Leads}
use free_micro_nix.Kernel.Interrupt.Switch.{Switches, initialize_gdt-Switches}

abbrev pub silent : Bus
silent port log = 0

abbrev empty_tss : TssEntry
empty_tss = record {
  prev_tss = 0;
  esp0 = 0;
  ss0 = 0;
  esp1 = 0;
  ss1 = 0;
  esp2 = 0;
  ss2 = 0;
  cr3 = 0;
  eip = 0;
  eflags = 0;
  eax = 0;
  ecx = 0;
  edx = 0;
  ebx = 0;
  esp = 0;
  ebp = 0;
  esi = 0;
  edi = 0;
  es = 0;
  cs = 0;
  ss = 0;
  ds = 0;
  fs = 0;
  gs = 0;
  ldt = 0;
  trap = 0;
  iomap_base = 0;
}

abbrev empty_descriptor : GdtEntry
empty_descriptor = record {
  limit0_15 = 0;
  base0_15 = 0;
  base16_23 = 0;
  access = 0;
  granularity = 0;
  base24_31 = 0;
}

abbrev pub empty_gdt : GdtState
empty_gdt = record {
  gdt =
      empty_descriptor ∷ empty_descriptor ∷ empty_descriptor ∷ empty_descriptor ∷ empty_descriptor
      ∷ empty_descriptor ∷ [];
  gp_limit = 0;
  gp_base = 0;
  tss_entry = empty_tss;
}

abbrev pub empty_idt : IdtState
empty_idt = record { idt = λ _. zero_entry; limit = 0; base = 0 }

-- An interrupt of the kernel's own code.
abbrev pub context : ℕ → Context
context n = record {
  gs = 0x10;
  fs = 0x10;
  es = 0x10;
  ds = 0x10;
  edi = 0;
  esi = 0;
  ebp = 0;
  esp = 0;
  ebx = 0;
  edx = 0;
  ecx = 0;
  eax = 0;
  int_no = n;
  err_code = 0;
  eip = 0x100000;
  cs = 0x08;
  eflags = 0x202;
  useresp = 0;
  ss = 0x10;
}

-- The timer and the clock have their routines.
abbrev pub running : ℕ → System
running ticks = record {
  routines =
      λ i. if i == 32 then some pit_8254_handler else if i == 40 then some rtc_handler else none;
  timer_ticks = ticks;
  timer_seconds = 0;
  rtc_ticks = 0;
  log = [];
}

pub running-IsClocked : (ticks : ℕ) → IsClocked (running ticks)
running-IsClocked ticks = record { here = refl; only = λ i ne. ground arith }

descriptor-decode_example :
    let e = descriptor 0x123456 0xFFFF_FFFF 0x9A 0xCF in
    (base_of e ≡ 0x123456)
    × (limit_of e ≡ 0xFFFF_FFFF % 2 ^ 20)
    × (e.access ≡ 0x9A)
    × (flags_of e ≡ 0xCF / 16)
descriptor-decode_example =
    descriptor-decode 0x123456 0xFFFF_FFFF 0x9A 0xCF (omega arith) (omega arith) (omega arith)

initialize_gdt-Switches_example :
    Returns (λ (g, log). Switches silent (map decode g.gdt)) (initialize_gdt 0x105000 empty_gdt [])
initialize_gdt-Switches_example = initialize_gdt-Switches silent 0x105000 empty_gdt [] refl

abbrev pub stub_at : ℕ → ℕ
stub_at i = 0x100000 + i % 256

install_gates-Leads_example :
    let idt = (install_gates stub_at 0x100078 (install_idt 0x106000 empty_idt []).0).idt in
    ((i : ℕ) → i < 48 → Leads (idt i) (stub_at i) 0)
    × Leads (idt 120) 0x100078 0
    × IsMistyped (idt 121) 0x100078 1
    × ((i : ℕ) → 48 ≤ i → i ≢ 120 → i ≢ 121 → is_present (idt i) ≡ false)
install_gates-Leads_example =
    install_gates-Leads stub_at 0x100078 0x106000 empty_idt [] (λ i. omega arith) (omega arith)
