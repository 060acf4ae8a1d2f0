-- ===== src/Kernel/Devices.antt =====
-- kernel/x86/nmi.c, kernel/x86/sound/speaker.c, kernel/kernel/reboot.c and kernel/kernel/panic.c.
pub mod Reboot
pub mod Speaker
pub mod Masked
use free_micro_nix.Base.{
  ℕ, zero, suc, bit_and, bit_or, Bool, true, List, ◌==◌, if◌then◌else◌, Run, ok, timeout, ◌>>=◌,
}
use free_micro_nix.Kernel.Port.{Bus, Log, outb, inb, hlt, record_event, say}
use free_micro_nix.Kernel.Interrupt.{Context, System, disable_interrupts}
use free_micro_nix.Kernel.Pit.{pit_8254_wait}

-- The global `nmi_enabled`, and the log.
pub record Nmi : Type 0 where
  pub nmi_enabled : Bool
  pub log : Log

module _ (bus : Bus) where
  unfoldable pub nmi_enable : Nmi → Nmi
  nmi_enable s =
      let (value, log) = inb bus 0x70 s.log in
      record { nmi_enabled = true; log = outb 0x70 (bit_and value 0x7F) log }

  unfoldable pub nmi_disable : Nmi → Nmi
  nmi_disable s =
      let (value, log) = inb bus 0x70 s.log in record s { log = outb 0x70 (bit_or value 0x80) log }

  unfoldable pub nmi_is_enabled : Nmi → Bool
  nmi_is_enabled s = s.nmi_enabled

  abbrev pub keyboard_interface : ℕ
  keyboard_interface = 0x64

  -- The `do` loop of keyboard_reboot, which empties the keyboard's buffers.
  unfoldable pub empty_buffers : ℕ → Log → Run Log
  empty_buffers zero log = timeout
  empty_buffers (suc f) log =
      let (temp, log) = inb bus keyboard_interface log in
      let log = if bit_and temp 1 == 0 then log else (inb bus 0x60 log).1 in
      let rest = empty_buffers f log in if bit_and temp 2 == 0 then ok log else rest

  -- Up to the loop at its end, which halts for ever.
  unfoldable pub keyboard_reboot : ℕ → Log → Run Log
  unfolding empty_buffers
  keyboard_reboot f log = do
    log ← empty_buffers f (disable_interrupts log)
    ok (outb keyboard_interface 0xFE log)

  -- The list is that of the interrupts that arrive while the code waits.
  unfoldable pub speaker_beep : (ℕ → ℕ) → List Context → System → Run (System × List Context)
  speaker_beep exception_messages arriving s = do
    let log = outb 0x42 0xEE (outb 0x43 0xB6 s.log)
    let (value, log) = inb bus 0x61 log
    let log = outb 0x61 (bit_or value 0x03) log
    (s, arriving) ← pit_8254_wait bus exception_messages 2000 arriving (record s { log = log })
    let (value, log) = inb bus 0x61 s.log
    ok (record s { log = outb 0x61 (bit_and value 0xFC) log }, arriving)

  unfoldable pub reboot : (ℕ → ℕ) → ℕ → List Context → System → Run (System × List Context)
  unfolding keyboard_reboot
  reboot exception_messages f arriving s = do
    (s, arriving) ←
        pit_8254_wait bus exception_messages 5000 arriving
          (record s { log = say "Rebooting CPU\n" s.log })
    log ← keyboard_reboot f s.log
    ok (record s { log = log }, arriving)
