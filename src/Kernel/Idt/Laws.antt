-- ===== src/Kernel/Idt/Laws.antt =====
-- The gates against the layout that the processor reads.
use free_micro_nix.Base.{
  ℕ, zero, suc, ◌+◌, ◌*◌, ◌/◌, ◌%◌, ◌^◌, ◌≤◌, ◌<◌, ◌≡◌, refl, ◌≢◌, Bool, true, false, ◌&&◌, arith,
  ltb, leb, ◌==◌, if◌then◌else◌,
}
use free_micro_nix.Base.Bits.{bit_and_mask}
use free_micro_nix.Kernel.Port.{Log}
use free_micro_nix.Kernel.Idt.{
  IdtEntry, IdtState, gate, create_idt_entry, create_gates, install_gates, install_idt,
}

pub handler_of : IdtEntry → ℕ
handler_of e = e.base_lo + e.base_hi * 2 ^ 16

-- The descriptor privilege level: bits 5 and 6 of the flags.
pub privilege_of : IdtEntry → ℕ
privilege_of e = e.flags / 32 % 4

pub is_present : IdtEntry → Bool
is_present e = leb 128 e.flags

-- A gate is read back as the 32-bit address, the selector and the flags that it was made of.
pub gate-decode :
    (base sel flags : ℕ)
    → base < 2 ^ 32
    → (handler_of (gate base sel flags) ≡ base)
      × ((gate base sel flags).sel ≡ sel)
      × ((gate base sel flags).flags ≡ flags)
unfolding handler_of gate
gate-decode base sel flags h =
    (omega (arith, bit_and_mask 16 base, bit_and_mask 16 (base / 2 ^ 16)), refl, refl)

create_gates_idt :
    (stub : ℕ → ℕ) (left from : ℕ) (s : IdtState) (i : ℕ)
    → from + left ≤ 256
    → (create_gates stub left from s).idt i
      ≡ (if leb from i && ltb i (from + left) then gate (stub i) 0x08 0x8E else s.idt i)
unfolding create_gates create_idt_entry
create_gates_idt stub zero from s i h = ground arith
create_gates_idt stub (suc left) from s i h =
    ground (
      arith,
      create_gates_idt stub left (from + 1) (create_idt_entry from (stub from) 0x08 0x8E s) i,
    )

install_gates_idt :
    (stub : ℕ → ℕ) (isr120 : ℕ) (s : IdtState) (i : ℕ)
    → (install_gates stub isr120 s).idt i ≡ (
        if i == 121
        then gate isr120 0x08 0xBE
        else if i == 120
        then gate isr120 0x08 0x8E
        else if ltb i 48
        then gate (stub i) 0x08 0x8E
        else s.idt i)
unfolding install_gates create_idt_entry
install_gates_idt stub isr120 s i = ground (arith, create_gates_idt stub 48 0 s i)

-- The type of an interrupt gate of 32 bits, in the lower five bits of the flags. The fifth, S, has to be
-- clear: with it set the processor takes the entry for a segment and not for a gate.
abbrev interrupt_gate : ℕ
interrupt_gate = 0x0E

pub kind_of : IdtEntry → ℕ
kind_of e = e.flags % 32

-- An interrupt gate of 32 bits that is present, leads to the handler with the selector 0x08 of
-- the kernel's code segment, and may be called from the privilege level.
pub record Leads (e : IdtEntry) (address level : ℕ) : Type 0 where
  pub handler : handler_of e ≡ address
  pub selector : e.sel ≡ 0x08
  pub reserved : e.always0 ≡ 0
  pub kind : kind_of e ≡ interrupt_gate
  pub privilege : privilege_of e ≡ level
  pub present : is_present e ≡ true

-- The same entry with the S bit set: its fields are those of a gate, but it has no gate's type.
pub record IsMistyped (e : IdtEntry) (address level : ℕ) : Type 0 where
  pub handler : handler_of e ≡ address
  pub selector : e.sel ≡ 0x08
  pub kind : kind_of e ≡ interrupt_gate + 16
  pub privilege : privilege_of e ≡ level
  pub present : is_present e ≡ true

gate-Leads :
    (base : ℕ)
    → base < 2 ^ 32
    → Leads (gate base 0x08 0x8E) base 0 × IsMistyped (gate base 0x08 0xBE) base 1
unfolding privilege_of is_present kind_of gate
gate-Leads base h = (
  record {
    handler = (gate-decode base 0x08 0x8E h).0;
    selector = refl;
    reserved = refl;
    kind = refl;
    privilege = refl;
    present = refl;
  },
  record {
    handler = (gate-decode base 0x08 0xBE h).0;
    selector = refl;
    kind = refl;
    privilege = refl;
    present = refl;
  },
)

gates_absent :
    (stub : ℕ → ℕ) (isr120 address : ℕ) (s : IdtState) (log : Log) (i : ℕ)
    → 48 ≤ i
    → i ≢ 120
    → i ≢ 121
    → is_present ((install_gates stub isr120 (install_idt address s log).0).idt i) ≡ false
unfolding install_idt is_present
gates_absent stub isr120 address s log i l n n' =
    ground (arith, install_gates_idt stub isr120 (install_idt address s log).0 i)

-- After `Install_IDT` and the installation of the gates, for stubs with 32-bit addresses, the
-- vectors 0 to 47 lead to their own stubs and vector 120 to `isr120`, each by an interrupt gate of 32
-- bits with the selector 0x08, at privilege level 0. The entry 121 is present and holds `isr120`
-- for level 1, but its S bit is set, so that its type is no gate's. No other entry is present.
pub install_gates-Leads :
    (stub : ℕ → ℕ) (isr120 address : ℕ) (s : IdtState) (log : Log)
    → ((i : ℕ) → stub i < 2 ^ 32)
    → isr120 < 2 ^ 32
    → let idt = (install_gates stub isr120 (install_idt address s log).0).idt in
      ((i : ℕ) → i < 48 → Leads (idt i) (stub i) 0)
      × Leads (idt 120) isr120 0
      × IsMistyped (idt 121) isr120 1
      × ((i : ℕ) → 48 ≤ i → i ≢ 120 → i ≢ 121 → is_present (idt i) ≡ false)
install_gates-Leads stub isr120 address s log hs h =
    let t = (install_idt address s log).0 in
    (
      λ i l.
          let e : (install_gates stub isr120 t).idt i ≡ gate (stub i) 0x08 0x8E =
            ground (arith, install_gates_idt stub isr120 t i) in
          rw e (gate-Leads (stub i) (hs i)).0,
      rw (install_gates_idt stub isr120 t 120) (gate-Leads isr120 h).0,
      rw (install_gates_idt stub isr120 t 121) (gate-Leads isr120 h).1,
      gates_absent stub isr120 address s log,
    )
