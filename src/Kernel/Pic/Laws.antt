-- ===== src/Kernel/Pic/Laws.antt =====
-- What the two interrupt controllers are told.
use free_micro_nix.Base.{
  ℕ, ◌+◌, ◌-◌, ◌<◌, bit_or, ◌≡◌, ◌≢◌, inl, inr, [], ◌∷◌, ◌++◌, arith, ltb, leb, ◌==◌, if◌then◌else◌,
  Bool-cases, u8, u32, ◌<<◌,
}
use mathlib.Core.List.{append_assoc, append-nil}
use free_micro_nix.Kernel.Port.{Bus, Log, outb, inb}
use free_micro_nix.Kernel.Port.Written.{written, written-append}
use free_micro_nix.Kernel.Pic.{initialize_8259_pic, disable_8259_pic, acknowledge_8259_pic}

module _ (bus : Bus) where
  -- For vector bases of one byte, the controllers are set up in the order that they ask for: the
  -- first word to the command port, then the vector base, the cascade line and the mode to the
  -- data port, and at last the mask that was read there at the start.
  pub initialize_8259_pic-written :
      (master_base slave_base : ℕ) (log : Log)
      → master_base < 256
      → slave_base < 256
      → let log' = initialize_8259_pic bus master_base slave_base log in
        let asked = (inb bus 0x21 log).1 in
        (written 0x20 log' ≡ written 0x20 log ++ 0x11 ∷ [])
        × (written 0xA0 log' ≡ written 0xA0 log ++ 0x11 ∷ [])
        × (written 0x21 log' ≡ written 0x21 log ++ master_base ∷ 4 ∷ 1 ∷ u8 (bus 0x21 log) ∷ [])
        × (written 0xA1 log' ≡ written 0xA1 log ++ slave_base ∷ 2 ∷ 1 ∷ u8 (bus 0xA1 asked) ∷ [])
  unfolding initialize_8259_pic written
  initialize_8259_pic-written master_base slave_base log h k = (
    simp (written-append, append_assoc, append-nil),
    simp (written-append, append_assoc, append-nil),
    simp (written-append, append_assoc, append-nil) (ground arith),
    simp (written-append, append_assoc, append-nil) (ground arith),
  )

-- A read of a port, and a write with the port and the value exchanged.
swapped_written :
    (bus : Bus) (port new : ℕ) (log : Log)
    → port < 256
    → new < 256
    → (new ≢ port → written port (outb new port (inb bus port log).1) ≡ written port log)
      × (written new (outb new port (inb bus port log).1) ≡ written new log ++ port ∷ [])
unfolding written
swapped_written bus port new log h k = (
  λ ne. simp (written-append, append_assoc) (ground (arith, append-nil (written port log))),
  simp (written-append, append_assoc) (ground arith),
)

-- The data port of the controller that has a line, and the line's number there.
pub mask_port : ℕ → ℕ
mask_port irq = if ltb irq 8 then 0x21 else 0xA1

pub line : ℕ → ℕ
line irq = if ltb irq 8 then irq else irq - 8

-- The mask that is to shut a line out.
pub shut_mask : Bus → ℕ → Log → ℕ
shut_mask bus irq log = u8 (bit_or (u8 (bus (mask_port irq) log)) (u32 (1 << line irq)))

mask_port_fits : (irq : ℕ) → mask_port irq < 256
unfolding mask_port
mask_port_fits irq = ground arith

shut_mask_fits : (bus : Bus) (irq : ℕ) (log : Log) → shut_mask bus irq log < 256
unfolding shut_mask
shut_mask_fits bus irq log = omega arith

disable-line :
    (bus : Bus) (irq : ℕ) (log : Log)
    → disable_8259_pic bus irq log
      ≡ outb (shut_mask bus irq log) (mask_port irq) (inb bus (mask_port irq) log).1
unfolding disable_8259_pic mask_port line shut_mask
disable-line bus irq log = ground arith

-- `Disable_8259_PIC` does not write the controller's mask: unless the new mask is by chance the number
-- of the mask's own port, nothing is written there, and the port's number is written to the port
-- that the new mask numbers.
disable_8259_pic-written :
    (bus : Bus) (irq : ℕ) (log : Log)
    → let mask = shut_mask bus irq log in
      (mask ≢ mask_port irq
        → written (mask_port irq) (disable_8259_pic bus irq log) ≡ written (mask_port irq) log)
      × (written mask (disable_8259_pic bus irq log) ≡ written mask log ++ mask_port irq ∷ [])
disable_8259_pic-written bus irq log = rw (disable-line bus irq log) (
    swapped_written bus (mask_port irq) (shut_mask bus irq log) log (mask_port_fits irq)
      (shut_mask_fits bus irq log))

-- `Acknowledge_8259_PIC` of one of the sixteen lines writes to no command port of a controller:
-- it writes the number of the master's command port to one of the ports 0x60 to 0x67, after that
-- of the slave for line 10.
pub acknowledge_8259_pic-written :
    (irq : ℕ) (log : Log)
    → irq < 16
    → let log' = acknowledge_8259_pic irq log in
      (written 0x20 log' ≡ written 0x20 log)
      × (written 0xA0 log' ≡ written 0xA0 log)
      × (let port : ℕ = 0x60 + (if ltb irq 8 then irq else 2) in
          written port log'
          ≡ written port log ++ (if irq == 10 then 0xA0 ∷ [] else []) ++ 0x20 ∷ [])
unfolding acknowledge_8259_pic written
acknowledge_8259_pic-written irq log h = elim (Bool-cases (leb 8 irq)) [
  | inl high ↦ rw high (
      simp (written-append, append_assoc)
        (ground (arith, append-nil (written 0x20 log), append-nil (written 0xA0 log))))
  | inr low ↦ rw low (
      simp (written-append, append_assoc)
        (ground (arith, append-nil (written 0x20 log), append-nil (written 0xA0 log))))
]
