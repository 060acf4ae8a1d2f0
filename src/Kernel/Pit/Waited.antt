-- ===== src/Kernel/Pit/Waited.antt =====
-- A wait on a machine whose only routine is the timer's.
use free_micro_nix.Base.{ℕ, ◌+◌, ◌^◌, ◌≤◌, ◌<◌, ◌≡◌, List, Returns}
use free_micro_nix.Kernel.Port.{Bus}
use free_micro_nix.Kernel.Interrupt.{Context, System}
use free_micro_nix.Kernel.Pit.{pit_8254_wait}
use free_micro_nix.Kernel.Pit.Wait.{IsQuiet, ticks_of, pit_8254_wait-ticks}
use free_micro_nix.Kernel.Pit.Silence.{IsAlone, IsAlone-IsClocked, Quiet, pit_8254_wait-Quiet}

module _ (bus : Bus) (msgs : ℕ → ℕ) where
  pub waited :
      (ticks : ℕ) (arriving : List Context) (s : System)
      → IsAlone s
      → IsQuiet arriving
      → s.timer_ticks + ticks < 2 ^ 64
      → ticks ≤ ticks_of arriving
      → Returns
          (λ (t, left).
            (t.timer_ticks ≡ s.timer_ticks + ticks)
            × (ticks_of arriving ≡ ticks + ticks_of left)
            × IsQuiet left
            × Quiet s t)
          (pit_8254_wait bus msgs ticks arriving s)
  waited ticks arriving s a q fits enough =
      let (r, run, (at, used, quiet, same, _, _, _, _)) =
        pit_8254_wait-ticks bus msgs ticks arriving s (IsAlone-IsClocked a) q fits enough in
      (r, run, (at, used, quiet, pit_8254_wait-Quiet bus msgs ticks arriving s r a q run))
