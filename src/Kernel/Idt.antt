-- ===== src/Kernel/Idt.antt =====
-- kernel/x86/isa/interrupt/idt.c, idt.h, and the installation of the gates in interrupt.c.
pub mod Laws
use free_micro_nix.Base.{ℕ, zero, suc, ◌+◌, ◌-◌, ◌*◌, bit_and, ◌==◌, if◌then◌else◌, u8, u16, ◌>>◌}
use free_micro_nix.Kernel.Port.{Log, lidt, record_event, say, Bus}
use free_micro_nix.Kernel.Pic.{initialize_8259_pic}

pub record IdtEntry : Type 0 where
  pub base_lo : ℕ
  pub sel : ℕ
  pub always0 : ℕ
  pub flags : ℕ
  pub base_hi : ℕ

-- The globals `idt` and `idtp`. The index of a gate is a `uint8_t`, so it never leaves the table.
pub record IdtState : Type 0 where
  pub idt : ℕ → IdtEntry
  pub limit : ℕ
  pub base : ℕ

abbrev pub num_interrupts : ℕ
num_interrupts = 256

abbrev pub sizeof_idt_entry : ℕ
sizeof_idt_entry = 8

unfoldable pub gate : ℕ → ℕ → ℕ → IdtEntry
gate base sel flags = record {
  base_lo = u16 (bit_and base 0xFFFF);
  sel = sel;
  always0 = 0;
  flags = flags;
  base_hi = u16 (bit_and (base >> 16) 0xFFFF);
}

unfoldable pub create_idt_entry : ℕ → ℕ → ℕ → ℕ → IdtState → IdtState
create_idt_entry num base sel flags s = record s {
  idt = λ i. if i == u8 num then gate base sel flags else s.idt i;
}

abbrev pub zero_entry : IdtEntry
zero_entry = record { base_lo = 0; sel = 0; always0 = 0; flags = 0; base_hi = 0 }

-- `idt_address` is where the linker puts `idt`. The `memset` covers the whole table, 2048 bytes.
unfoldable pub install_idt : ℕ → IdtState → Log → IdtState × Log
install_idt idt_address s log =
    let limit = u16 (sizeof_idt_entry * num_interrupts - 1) in
    (
      record { idt = λ _. zero_entry; limit = limit; base = idt_address },
      say "Interrupt Descriptor Table Initialized\n" (record_event (lidt limit idt_address) log),
    )

-- The gates of Interrupt_Handler_Installer for the vectors `from`, `from + 1`, and so on, which are
-- written one by one there: `stub n` is the address of the assembly stub that the linker gives for
-- `isr0` to `isr31`, and `irq0` to `irq15` as 32 to 47.
unfoldable pub create_gates : (ℕ → ℕ) → ℕ → ℕ → IdtState → IdtState
create_gates stub zero from s = s
create_gates stub (suc left) from s =
    create_gates stub left (from + 1) (create_idt_entry from (stub from) 0x08 0x8E s)

-- Both gates for system calls get `isr120`.
unfoldable pub install_gates : (ℕ → ℕ) → ℕ → IdtState → IdtState
install_gates stub isr120 s =
    create_idt_entry 121 isr120 0x08 0xBE
      (create_idt_entry 120 isr120 0x08 0x8E (create_gates stub 48 0 s))

-- The whole of Interrupt_Handler_Installer.
unfoldable pub interrupt_handler_installer : Bus → (ℕ → ℕ) → ℕ → IdtState → Log → IdtState × Log
unfolding install_gates
interrupt_handler_installer bus stub isr120 s log = (
  install_gates stub isr120 s,
  say "Interrupt Handlers Installed\n" (initialize_8259_pic bus 0x20 0x28 log),
)
