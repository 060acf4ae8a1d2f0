-- ===== src/Kernel/Entry/Loaded.antt =====
-- When kmain gets to its end.
use free_micro_nix.Base.{
  ℕ, ◌+◌, ◌^◌, ◌≤◌, ◌<◌, ◌≡◌, refl, none, List, [], ◌∷◌, ◌++◌, arith, length, Returns, Returns-bind,
}
use Prim.Native.String.{String}
use free_micro_nix.Kernel.Multiboot.{MultibootInfo, multiboot_bootloader_magic}
use free_micro_nix.Kernel.Port.{Bus, Log, printed}
use free_micro_nix.Kernel.Interrupt.{install_interrupt_handler, Context, System}
use free_micro_nix.Kernel.Pit.{initialize_pit_8254, pit_8254_phase}
use free_micro_nix.Kernel.Devices.{speaker_beep}
use free_micro_nix.Kernel.Entry.{
  Machine, Layout, set_up, run_tests, kmain, initialize_pit_8254, install_interrupt_handler,
}
use free_micro_nix.Kernel.Pit.Wait.{IsClocked, IsQuiet, ticks_of, pit_8254_wait-ticks, IsClocked-as}
use free_micro_nix.Kernel.Pit.{pit_8254_phase}
use free_micro_nix.Kernel.Gdt.Laws.{initialize_gdt-Initialized}

-- The machine as it starts: no routine is installed, the clock stands at 0, and the table of
-- descriptors has its six entries.
pub record IsFresh (m : Machine) : Type 0 where
  pub routines : (i : ℕ) → m.system.routines i ≡ none
  pub ticks : m.system.timer_ticks ≡ 0
  pub entries : length m.segments.gdt ≡ 6

-- The last message is this one.
abbrev pub EndsWith : String → Log → Type 0
EndsWith message log = (before : Log) × (log ≡ before ++ printed message [] ∷ [])

module _ (bus : Bus) (layout : Layout) where
  set_up-IsClocked :
      (mbi : MultibootInfo) (m : Machine)
      → IsFresh m
      → Returns (λ t. IsClocked t.system × (t.system.timer_ticks ≡ 0)) (set_up bus layout mbi m)
  unfolding set_up initialize_pit_8254 pit_8254_phase install_interrupt_handler
  set_up-IsClocked mbi m fresh =
      Returns-bind (initialize_gdt-Initialized layout.gdt_address m.segments _ fresh.entries)
        λ r done. (
          _,
          refl,
          (record { here = refl; only = λ i ne. ground (arith, fresh.routines i) }, fresh.ticks),
        )

module _ (bus : Bus) (msgs : ℕ → ℕ) where
  speaker_beep-ticks :
      (arriving : List Context) (s : System)
      → IsClocked s
      → IsQuiet arriving
      → s.timer_ticks + 2000 < 2 ^ 64
      → 2000 ≤ ticks_of arriving
      → Returns
          (λ (t, left).
            (t.timer_ticks ≡ s.timer_ticks + 2000) × (ticks_of arriving ≡ 2000 + ticks_of left))
          (speaker_beep bus msgs arriving s)
  unfolding speaker_beep
  speaker_beep-ticks arriving s k q fits enough =
      Returns-bind
        (pit_8254_wait-ticks bus msgs 2000 arriving (record s { log = _ }) (IsClocked-as refl k) q
          fits enough)
        λ r (at, used, quiet, same, _, _, _, _). (_, refl, (at, used))

  run_tests-ticks :
      (arriving : List Context) (s : System)
      → IsClocked s
      → IsQuiet arriving
      → s.timer_ticks ≡ 0
      → 4000 ≤ ticks_of arriving
      → Returns
          (λ (t, left).
            (t.timer_ticks ≡ 4000)
            × (ticks_of arriving ≡ 4000 + ticks_of left)
            × EndsWith "System Loaded\n" t.log)
          (run_tests bus msgs arriving s)
  unfolding run_tests
  run_tests-ticks arriving s k q zero_ticks enough =
      Returns-bind
        (pit_8254_wait-ticks bus msgs 2000 arriving (record s { log = _ }) (IsClocked-as refl k) q
          (omega arith) (omega arith))
        λ r (at, used, quiet, same, _, _, _, _).
          Returns-bind
            (speaker_beep-ticks r.1 (record r.0 { log = _ }) (IsClocked-as same k) quiet
              (omega arith) (omega arith))
            λ r' (at', used'). (_, refl, (omega arith, omega arith, (_, refl)))

-- For the magic number of a multiboot loader, on a fresh machine where no exception arrives and the
-- timer interrupts at least 4000 times, kmain gets to its end: both waits return, 4000 ticks have
-- passed and no other arriving tick is used up, and the last message is "System Loaded".
pub kmain-EndsWith :
    (bus : Bus) (msgs : ℕ → ℕ) (layout : Layout) (mbi : MultibootInfo) (arriving : List Context)
    (m : Machine)
    → IsFresh m
    → IsQuiet arriving
    → 4000 ≤ ticks_of arriving
    → Returns
        (λ (t, left).
          (t.system.timer_ticks ≡ 4000)
          × (ticks_of arriving ≡ 4000 + ticks_of left)
          × EndsWith "System Loaded\n" t.system.log)
        (kmain bus msgs layout multiboot_bootloader_magic mbi arriving m)
unfolding kmain
kmain-EndsWith bus msgs layout mbi arriving m fresh q enough =
    Returns-bind
      (set_up-IsClocked bus layout mbi (record m { system = _ })
        (record { routines = fresh.routines; ticks = fresh.ticks; entries = fresh.entries }))
      λ t (k, zero_ticks).
        Returns-bind (run_tests-ticks bus msgs arriving t.system k q zero_ticks enough)
          λ r done. (_, refl, done)
