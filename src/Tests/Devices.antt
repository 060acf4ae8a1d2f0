-- ===== src/Tests/Devices.antt =====
-- The speaker, the reboot and the devices behind kmain.
use free_micro_nix.Base.{
  ◌≤◌, ◌≡◌, refl, true, false, none, some, [], ◌∷◌, ◌++◌, arith, ◌==◌, if◌then◌else◌, Returns,
}
use free_micro_nix.Kernel.Port.Visible.{messages}
use free_micro_nix.Kernel.Interrupt.{
  interrupt_handler, install_syscall_handler, back, System, pit_8254_handler,
}
use free_micro_nix.Kernel.Interrupt.{Context}
use free_micro_nix.Kernel.Port.Written.{written}
use free_micro_nix.Kernel.Devices.{speaker_beep, reboot}
use free_micro_nix.Kernel.Devices.Reboot.{reboot-written}
use free_micro_nix.Tests.Machine.{silent, running}
use free_micro_nix.Kernel.Devices.Speaker.{Beeped, speaker_beep-Beeped}
use free_micro_nix.Kernel.Pit.Silence.{IsAlone}
use free_micro_nix.Kernel.Interrupt.Resumed.{OnlyDevices, is_device, interrupt_handler-resumed}
use free_micro_nix.Kernel.Pic.Programmed.{Controller, cascade_next}
use free_micro_nix.Kernel.Pit.Counter.{Counter}
use free_micro_nix.Tests.Running.{ticking, ticking-IsQuiet, ticks_of-ticking}

-- With the timer's routine only.
abbrev alone : System
alone = record (running 7) { routines = λ i. if i == 32 then some pit_8254_handler else none }

alone-IsAlone : IsAlone alone
alone-IsAlone = record { here = refl; only = λ i ne. ground arith }

speaker_beep-Beeped_example :
    Returns (λ (t, left). Beeped silent alone t) (speaker_beep silent (λ i. 0) (ticking 2100) alone)
speaker_beep-Beeped_example =
    speaker_beep-Beeped silent (λ i. 0) (ticking 2100) alone (alone-IsAlone) (ticking-IsQuiet 2100)
      (omega arith) (omega (arith, ticks_of-ticking 2100))

reboot-written_example :
    Returns
      (λ (t, left).
        (messages t.log ≡ messages [] ++ ("Rebooting CPU\n", []) ∷ [])
        × (t.timer_ticks ≡ 5007)
        × (written 0x64 t.log ≡ written 0x64 [] ++ 0xFE ∷ []))
      (reboot silent (λ i. 0) 1 (ticking 5100) alone)
reboot-written_example =
    reboot-written silent (λ i. 0) 0 1 (ticking 5100) alone alone-IsAlone (ticking-IsQuiet 5100)
      (omega arith) (omega (arith, ticks_of-ticking 5100)) (λ log h. refl) (omega arith)

running-OnlyDevices : OnlyDevices (running 7)
unfolding is_device
running-OnlyDevices i low = ground arith

interrupt_handler-resumed_example :
    ((c : Context)
      → 32 ≤ c.int_no
      → (t : System) × (interrupt_handler silent (λ i. 0) c (running 7) ≡ back c t)
        × (t.routines ≡ (running 7).routines))
    × Returns OnlyDevices (install_syscall_handler (running 7))
interrupt_handler-resumed_example =
    interrupt_handler-resumed silent (λ i. 0) (running 7) running-OnlyDevices

-- A controller that waits for the middle of its initialization, and a counter with half of its count.
abbrev confused : Controller
confused = record {
  stage = cascade_next;
  stands_alone = true;
  takes_mode = false;
  base = 8;
  cascade = 0;
  mode = 0;
  mask = 0;
}

abbrev stopped : Counter
stopped = record { access = 3; mode = 0; low = some 7; count = none }
