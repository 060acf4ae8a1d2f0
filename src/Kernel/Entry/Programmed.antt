-- ===== src/Kernel/Entry/Programmed.antt =====
-- The state of the controllers and of the timer behind kmain.
use free_micro_nix.Base.{ℕ, ◌+◌, ◌<◌, ◌≡◌}
use free_micro_nix.Kernel.Port.{Log}
use free_micro_nix.Kernel.Port.Device.{run}
use free_micro_nix.Kernel.Pic.Programmed.{Controller, IsSetUp, tell, tell-still, vector}
use free_micro_nix.Kernel.Pit.Counter.{
  Counter, counting, tell as tell_counter, tell-still as tell_counter-still,
}
use free_micro_nix.Kernel.Idt.{IdtEntry}
use free_micro_nix.Kernel.Idt.Laws.{Leads}

-- The controllers give the vectors 32 to 47, in the mode of this processor with the slave at line 2, and
-- the timer's channel 0 makes a square wave of 1193182 / 1193 Hz.
pub record IsProgrammed (master slave : Controller) (timer : Counter) (log : Log) : Type 0 where
  pub master_set_up : IsSetUp 0x20 4 (run (tell 0x20) log master)
  pub slave_set_up : IsSetUp 0x28 2 (run (tell 0xA0) log slave)
  pub timer_set_up : run (tell_counter 0) log timer ≡ counting 1193

-- Each line of the two controllers has a vector whose interrupt gate leads to the stub of that interrupt.
pub record IsWired (stub : ℕ → ℕ) (master slave : Controller) (gates : ℕ → IdtEntry) (log : Log)
    : Type 0 where
  pub master_line :
      (line : ℕ)
      → line < 8
      → Leads (gates (vector (run (tell 0x20) log master) line)) (stub (32 + line)) 0
  pub slave_line :
      (line : ℕ)
      → line < 8
      → Leads (gates (vector (run (tell 0xA0) log slave) line)) (stub (40 + line)) 0
