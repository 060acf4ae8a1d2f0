-- ===== src/Kernel/Entry/Transcript.antt =====
-- What kmain says.
use free_micro_nix.Base.{
  ℕ, ◌/◌, ◌≤◌, ◌≡◌, refl, sym, ap, ◌∙◌, List, [], ◌∷◌, ◌++◌, arith, ltb, if◌then◌else◌, Returns,
  Returns-bind, Returns-mono,
}
use free_micro_nix.Kernel.Pit.Waited.{waited}
use mathlib.Core.List.{append_assoc, append-nil}
use free_micro_nix.Kernel.Port.{Bus, Log, printed, colored, terminal_initialized}
use free_micro_nix.Kernel.Interrupt.{Context, System, install_interrupt_handler, enable_interrupts}
use free_micro_nix.Kernel.Pit.{initialize_pit_8254, pit_8254_phase}
use free_micro_nix.Kernel.Pit.Wait.{IsQuiet, ticks_of}
use free_micro_nix.Kernel.Port.Visible.{
  Message, messages, messages-append, messages-visible, visible, visible-append,
}
use free_micro_nix.Kernel.Pit.Silence.{IsAlone, IsAlone-as}
use free_micro_nix.Kernel.Pic.{initialize_8259_pic}
use free_micro_nix.Kernel.Idt.{install_idt, interrupt_handler_installer}
use free_micro_nix.Kernel.Gdt.Laws.{initialize_gdt-Initialized}
use free_micro_nix.Kernel.Devices.Speaker.{
  Beeps, Beeps-Sounds, Sounds, Sounds-within, speaker_beep-Beeped,
}
use free_micro_nix.Kernel.Port.Device.{effects, is_effect, effects-append}
use free_micro_nix.Kernel.Port.Written.{written, written-append}
use free_micro_nix.Kernel.Multiboot.{MultibootInfo, multiboot_bootloader_magic}
use free_micro_nix.Kernel.Entry.{Machine, Layout, set_up, run_tests, kmain, get_rtc_ticks}
use free_micro_nix.Kernel.Entry.Loaded.{IsFresh}

-- The messages up to the last before the interrupts are enabled.
abbrev pub greeting : Layout → MultibootInfo → List Message
greeting layout mbi =
    let large = ltb 100000 mbi.mem_upper in
    ("FreeMicroNix Version 0.1\n", [])
    ∷ ("8254 PIT Initialized on channel 0\n", [])
    ∷ ("Global Descriptor Table Initialized\n", [])
    ∷ ("Task State Segment Initialized\n", [])
    ∷ ("Interrupt Descriptor Table Initialized\n", [])
    ∷ ("8259 PIC Successfully Initilialized\n", [])
    ∷ ("Interrupt Handlers Installed\n", [])
    ∷ (
      "Available Memory: %d%s (%dKB)\n",
      mbi.mem_upper / (if large then 1000 else 1)
          ∷ (if large then layout.megabytes else layout.kilobytes)
          ∷ mbi.mem_upper
          ∷ [],
    )
    ∷ ("Interrupts Enabled\n", [])
    ∷ []

-- The messages of the tests, for a count of the clock.
abbrev pub report : ℕ → List Message
report rtc_ticks =
    ("Testing Programmable Interval Timer: Waiting 2 seconds\n", [])
    ∷ ("Waited 2 seconds\n", [])
    ∷ ("RTC Ticks: %d\n", rtc_ticks ∷ [])
    ∷ ("Testing Internal PC Speaker\nYou will hear a beep if present\n", [])
    ∷ ("System Loaded\n", [])
    ∷ []

-- The same with the changes of colour: the version is shown in light blue, all else in grey.
abbrev pub opening : Layout → MultibootInfo → Log
opening layout mbi =
    let large = ltb 100000 mbi.mem_upper in
    colored 9
    ∷ printed "FreeMicroNix Version 0.1\n" []
    ∷ colored 7
    ∷ printed "8254 PIT Initialized on channel 0\n" []
    ∷ printed "Global Descriptor Table Initialized\n" []
    ∷ printed "Task State Segment Initialized\n" []
    ∷ printed "Interrupt Descriptor Table Initialized\n" []
    ∷ printed "8259 PIC Successfully Initilialized\n" []
    ∷ printed "Interrupt Handlers Installed\n" []
    ∷ printed "Available Memory: %d%s (%dKB)\n" (
        mbi.mem_upper / (if large then 1000 else 1)
        ∷ (if large then layout.megabytes else layout.kilobytes)
        ∷ mbi.mem_upper
        ∷ [])
    ∷ printed "Interrupts Enabled\n" []
    ∷ []

abbrev pub ending : ℕ → Log
ending rtc_ticks =
    printed "Testing Programmable Interval Timer: Waiting 2 seconds\n" []
    ∷ printed "Waited 2 seconds\n" []
    ∷ printed "RTC Ticks: %d\n" (rtc_ticks ∷ [])
    ∷ printed "Testing Internal PC Speaker\nYou will hear a beep if present\n" []
    ∷ printed "System Loaded\n" []
    ∷ []

initialize_8259_pic-visible :
    (bus : Bus) (log : Log)
    → visible (initialize_8259_pic bus 0x20 0x28 log)
      ≡ visible log ++ printed "8259 PIC Successfully Initilialized\n" [] ∷ []
unfolding initialize_8259_pic visible
initialize_8259_pic-visible bus log = simp (visible-append, append-nil) refl

initialize_8259_pic-silent :
    (bus : Bus) (log : Log)
    → written 0x61 (initialize_8259_pic bus 0x20 0x28 log) ≡ written 0x61 log
unfolding initialize_8259_pic written
initialize_8259_pic-silent bus log = simp (written-append, append-nil) refl

pub set_up-greeting :
    (bus : Bus) (layout : Layout) (mbi : MultibootInfo) (m : Machine)
    → IsFresh m
    → Returns
        (λ t.
          IsAlone t.system
          × (t.system.timer_ticks ≡ 0)
          × (t.system.rtc_ticks ≡ m.system.rtc_ticks)
          × (visible t.system.log ≡ visible m.system.log ++ opening layout mbi)
          × (written 0x61 t.system.log ≡ written 0x61 m.system.log))
        (set_up bus layout mbi m)
unfolding set_up initialize_pit_8254 pit_8254_phase install_interrupt_handler install_idt
    interrupt_handler_installer enable_interrupts visible written
set_up-greeting bus layout mbi m fresh =
    Returns-bind (initialize_gdt-Initialized layout.gdt_address m.segments _ fresh.entries)
      λ (segments, log) (table, limit, base, logged). (
        _,
        refl,
        (
          record { here = refl; only = λ i ne. ground (arith, fresh.routines i) },
          fresh.ticks,
          refl,
          simp (visible-append, initialize_8259_pic-visible, logged, append-nil, append_assoc) refl,
          simp (written-append, initialize_8259_pic-silent, logged, append-nil) refl,
        ),
      )

module _ (bus : Bus) (msgs : ℕ → ℕ) where
  pub run_tests-report :
      (arriving : List Context) (s : System)
      → IsAlone s
      → IsQuiet arriving
      → s.timer_ticks ≡ 0
      → 4000 ≤ ticks_of arriving
      → Returns
          (λ (t, left). (visible t.log ≡ visible s.log ++ ending s.rtc_ticks) × Beeps s.log t.log)
          (run_tests bus msgs arriving s)
  unfolding run_tests get_rtc_ticks visible effects is_effect
  run_tests-report arriving s a q zero_ticks enough =
      Returns-bind
        (waited bus msgs 2000 arriving (record s { log = _ }) (IsAlone-as refl a) q (omega arith)
          (omega arith))
        λ r (at, used, quiet, same).
          Returns-bind
            (speaker_beep-Beeped bus msgs r.1 (record r.0 { log = _ }) (IsAlone-as same.same a)
              quiet (omega arith) (omega arith))
            λ r' beep. (
              _,
              refl,
              (
                simp visible-append (
                    rw beep.said (
                      simp visible-append
                        (rw same.said (rw same.rtc (simp (visible-append, append_assoc) refl))))),
                record {
                  on = beep.beeps.on;
                  off = beep.beeps.off;
                  told = simp effects-append (
                      rw beep.beeps.told (
                        simp effects-append
                          (rw same.idle (simp (effects-append, append_assoc, append-nil) refl))));
                  opened = beep.beeps.opened;
                  shut = beep.beeps.shut;
                },
              ),
            )

-- What is to be seen and to be heard of kmain.
pub kmain-visible :
    (bus : Bus) (msgs : ℕ → ℕ) (layout : Layout) (mbi : MultibootInfo) (arriving : List Context)
    (m : Machine)
    → IsFresh m
    → IsQuiet arriving
    → 4000 ≤ ticks_of arriving
    → Returns
        (λ (t, left).
          (visible t.system.log
            ≡ visible m.system.log
              ++ (terminal_initialized ∷ (opening layout mbi ++ ending m.system.rtc_ticks)))
          × Sounds m.system.log t.system.log)
        (kmain bus msgs layout multiboot_bootloader_magic mbi arriving m)
unfolding kmain visible written
kmain-visible bus msgs layout mbi arriving m fresh q enough =
    Returns-bind
      (set_up-greeting bus layout mbi (record m { system = _ })
        (record { routines = fresh.routines; ticks = fresh.ticks; entries = fresh.entries }))
      λ t (alone, zero_ticks, rtc, greeted, unheard).
        Returns-bind (run_tests-report bus msgs arriving t.system alone q zero_ticks enough)
          λ r (reported, beeps). (
            _,
            refl,
            (
              reported ∙ rw greeted (rw rtc (simp (visible-append, append-nil, append_assoc) refl)),
              Sounds-within (unheard ∙ simp (written-append, append-nil) refl) (Beeps-Sounds beeps)
                  refl,
            ),
          )

-- For the magic number of a multiboot loader, on a fresh machine where no exception arrives and the
-- timer interrupts at least 4000 times, kmain gets to its end, and its messages are exactly these, in
-- this order: the greeting, that of each part that is set up, the memory that the loader reported, the
-- interrupts, and the report of the tests, with the count of the clock as it was at the start. Nothing
-- that arrives meanwhile adds a message. To port 0x61 it writes twice: a value that opens the
-- speaker's gate, then one that shuts it.
pub kmain-messages :
    (bus : Bus) (msgs : ℕ → ℕ) (layout : Layout) (mbi : MultibootInfo) (arriving : List Context)
    (m : Machine)
    → IsFresh m
    → IsQuiet arriving
    → 4000 ≤ ticks_of arriving
    → Returns
        (λ (t, left).
          (messages t.system.log
            ≡ messages m.system.log ++ (greeting layout mbi ++ report m.system.rtc_ticks))
          × Sounds m.system.log t.system.log)
        (kmain bus msgs layout multiboot_bootloader_magic mbi arriving m)
unfolding messages
kmain-messages bus msgs layout mbi arriving m fresh q enough =
    Returns-mono (kmain-visible bus msgs layout mbi arriving m fresh q enough)
      λ (t, left) (seen, sounds). (
        sym (messages-visible t.system.log)
            ∙ ap messages seen
            ∙ messages-append (visible m.system.log)
                (terminal_initialized ∷ (opening layout mbi ++ ending m.system.rtc_ticks))
            ∙ rw (messages-visible m.system.log) refl,
        sounds,
      )
