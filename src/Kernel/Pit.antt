-- ===== src/Kernel/Pit.antt =====
-- kernel/x86/isa/8254.c: the timer. Its handler is `tick` of Interrupt.
pub mod Counter
pub mod Wait
pub mod Silence
pub mod Waited
use free_micro_nix.Base.{
  ℕ, ◌+◌, ◌/◌, bit_and, some, List, [], ◌∷◌, ltb, ◌==◌, if◌then◌else◌, Run, ok, fault, timeout, u64,
  ◌>>◌, ◌>>=◌,
}
use free_micro_nix.Kernel.Port.{Bus, Log, hlt, outb, record_event, say}
use free_micro_nix.Kernel.Interrupt.{
  Context, Routine, pit_8254_handler, System, Exit, back, halted, interrupt_handler,
  install_interrupt_handler, irq0,
}

abbrev pub pit_channel_0 : ℕ
pit_channel_0 = 0x40

abbrev pub pit_command_register : ℕ
pit_command_register = 0x43

-- A division by zero raises an exception.
unfoldable pub pit_8254_phase : ℕ → Log → Run Log
pit_8254_phase hz log =
    let divisor = 1193182 / hz in
    if hz == 0
    then fault
    else ok (
        outb pit_channel_0 (divisor >> 8)
          (outb pit_channel_0 (bit_and divisor 0xFF) (outb pit_command_register 0x36 log)))

unfoldable pub initialize_pit_8254 : System → Run System
unfolding pit_8254_phase
initialize_pit_8254 s = do
  log ← pit_8254_phase 1000 s.log
  s ← install_interrupt_handler irq0 (some pit_8254_handler) (record s { log = log })
  ok (record s { log = say "8254 PIT Initialized on channel 0\n" s.log })

-- `for (; eticks > timer_ticks;) hlt;`. Each `hlt` ends with the next of the interrupts that arrive;
-- the result has those that are left. Where none is left, or the kernel panics, the loop goes on for
-- ever.
module _ (bus : Bus) (exception_messages : ℕ → ℕ) where
  unfoldable pub wait_loop : ℕ → List Context → System → Run (System × List Context)
  wait_loop eticks [] s = if ltb s.timer_ticks eticks then timeout else ok (s, [])
  wait_loop eticks (c ∷ arriving) s =
      let woken =
        interrupt_handler bus exception_messages c (record s { log = record_event hlt s.log }) in
      let rest : Run (System × List Context) = elim woken [
        | back _ t ↦ wait_loop eticks arriving t
        | halted _ ↦ timeout
      ] in
      if ltb s.timer_ticks eticks then rest else ok (s, c ∷ arriving)

  unfoldable pub pit_8254_wait : ℕ → List Context → System → Run (System × List Context)
  unfolding wait_loop
  pit_8254_wait ticks arriving s = wait_loop (u64 (s.timer_ticks + ticks)) arriving s
