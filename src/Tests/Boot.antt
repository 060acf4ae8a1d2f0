-- ===== src/Tests/Boot.antt =====
-- The screen of kmain, with the literals in memory at multiples of 100.
use free_micro_nix.Base.{
  ℕ, zero, suc, ◌+◌, ◌-◌, ◌*◌, ◌/◌, ◌%◌, ◌≤◌, ◌≡◌, refl, ap, ◌≢◌, inr, Bool, true, false, ◌&&◌,
  Option, none, some, List, [], ◌∷◌, ◌++◌, arith, ltb, ◌==◌, if◌then◌else◌, Returns,
}
use Prim.Native.String.{String}
use free_micro_nix.Mem.{Mem, CString, SameOutside}
use free_micro_nix.Kernel.Vga.Print.Formatted.{Setting, Apart}
use free_micro_nix.Kernel.Vga.Print.Literal.{bytes}
use free_micro_nix.Kernel.Entry.{Layout, kmain}
use free_micro_nix.Tests.Running.{
  layout, boot_info, ticking, fresh, fresh-IsFresh, ticking-IsQuiet, ticks_of-ticking,
}
use free_micro_nix.Kernel.Screen.Replay.{IsLoaded}
use free_micro_nix.Kernel.Screen.Boot.{IsSuffix, boot_lines}
use free_micro_nix.Kernel.Screen.Seen.{IsSeen}
use free_micro_nix.Kernel.Entry.Transcript.{opening, ending}
use free_micro_nix.Kernel.Screen.{replay}
use free_micro_nix.Tests.Machine.{silent}
use free_micro_nix.Tests.Screen.{cursor_at}
use free_micro_nix.Kernel.Multiboot.{multiboot_bootloader_magic}
use free_micro_nix.Kernel.Screen.Refused.{refusal, kmain-refused}
use free_micro_nix.Kernel.Screen.Booted.{kmain-IsSeen}
use free_micro_nix.Kernel.Vga.Cursor.{cursor}

-- The literals that kmain and an exception print, in the order of their addresses.
abbrev pub literals : List String
literals =
    "FreeMicroNix Version 0.1\n" ∷ "8254 PIT Initialized on channel 0\n"
    ∷ "Global Descriptor Table Initialized\n" ∷ "Task State Segment Initialized\n"
    ∷ "Interrupt Descriptor Table Initialized\n" ∷ "8259 PIC Successfully Initilialized\n"
    ∷ "Interrupt Handlers Installed\n" ∷ "Available Memory: %d%s (%dKB)\n" ∷ "Interrupts Enabled\n"
    ∷ "Testing Programmable Interval Timer: Waiting 2 seconds\n" ∷ "Waited 2 seconds\n"
    ∷ "RTC Ticks: %d\n" ∷ "Testing Internal PC Speaker\nYou will hear a beep if present\n"
    ∷ "System Loaded\n" ∷ "MB" ∷ "KB" ∷ "INVALID_MULTIBOOT NUMBER!\n" ∷ "Page Fault"
    ∷ "Exception %x: %s (code %x)\n" ∷ "\nDumping Segment Registers:\n cs: %x ss: %x ds: %x"
    ∷ "\nDumping General Purpose Registers:\n edi: %x esi: %x ebp: %x ebx: %x edx: %x ecx: %x eax: %x"
    ∷ "\nDumping Other Registers:\n eip: %x eflags: %x useresp: %x" ∷ "\nKernel Panic!\n" ∷ []

abbrev pub is_same : List ℕ → List ℕ → Bool
is_same [] [] = true
is_same [] (d ∷ ds) = false
is_same (c ∷ cs) [] = false
is_same (c ∷ cs) (d ∷ ds) = c == d && is_same cs ds

abbrev pub position : List String → List ℕ → ℕ
position [] cs = 0
position (s ∷ rest) cs =
    let after = position rest cs in if is_same (bytes s) cs then 0 else suc after

abbrev pub address : String → ℕ
address s = 1000 + 100 * position literals (bytes s)

abbrev pub nth : List ℕ → ℕ → ℕ
nth [] i = 0
nth (c ∷ cs) zero = c
nth (c ∷ cs) (suc i) = nth cs i

abbrev pub pick : List String → ℕ → List ℕ
pick [] k = []
pick (s ∷ rest) zero = bytes s
pick (s ∷ rest) (suc k) = pick rest k

-- Each literal, and zeros behind it.
abbrev pub rom : Mem
rom a = some (nth (pick literals ((a - 1000) / 100)) (a % 100))

abbrev pub booting : Setting
booting = record {
  mem = rom;
  buf = 200;
  null_text = 3000;
  limit = 3;
  strings = λ p. if p == 2400 then bytes "MB" else bytes "KB";
}

abbrev placed : Layout
placed = record layout { megabytes = 2400; kilobytes = 2500 }

unfoldable pub holds : Mem → ℕ → List ℕ → Bool
holds m p [] = elim (m p) [ none ↦ false | some v ↦ v == 0 ]
holds m p (c ∷ cs) =
    (elim (m p) [ none ↦ false | some v ↦ v == c ]) && ltb 0 c && ltb c 256 && holds m (p + 1) cs

option_held :
    (o : Option ℕ) (c : ℕ) → (elim o [ none ↦ false | some v ↦ v == c ]) ≡ true → o ≡ some c
option_held none c e = absurd (ground (arith, e))
option_held (some v) c e = ap some (ground (arith, e))

holds-CString : (m : Mem) (p : ℕ) (cs : List ℕ) → holds m p cs ≡ true → CString m p cs
unfolding holds
holds-CString m p [] e = option_held (m p) 0 e
holds-CString m p (c ∷ cs) e = (
  option_held (m p) c (ground arith),
  ground arith,
  ground arith,
  holds-CString m (p + 1) cs (ground arith),
)

apart : (p : ℕ) (cs : List ℕ) → 1000 ≤ p → holds rom p cs ≡ true → Apart booting p cs
apart p cs above e = (holds-CString rom p cs e, inr (omega arith))

pub at_address :
    (s : String)
    → 1000 ≤ address s
    → holds rom (address s) (bytes s) ≡ true
    → Apart booting (address s) (bytes s)
at_address s above e = apart (address s) (bytes s) above e

literals-IsLoaded : IsLoaded booting address 100 (opening placed boot_info ++ ending 0)
unfolding IsLoaded bytes holds
literals-IsLoaded = (
  at_address "FreeMicroNix Version 0.1\n" (omega arith) refl,
  omega arith,
  (
    at_address "8254 PIT Initialized on channel 0\n" (omega arith) refl,
    omega arith,
    (
      at_address "Global Descriptor Table Initialized\n" (omega arith) refl,
      omega arith,
      (
        at_address "Task State Segment Initialized\n" (omega arith) refl,
        omega arith,
        (
          at_address "Interrupt Descriptor Table Initialized\n" (omega arith) refl,
          omega arith,
          (
            at_address "8259 PIC Successfully Initilialized\n" (omega arith) refl,
            omega arith,
            (
              at_address "Interrupt Handlers Installed\n" (omega arith) refl,
              omega arith,
              (
                at_address "Available Memory: %d%s (%dKB)\n" (omega arith) refl,
                omega arith,
                (
                  at_address "Interrupts Enabled\n" (omega arith) refl,
                  omega arith,
                  (
                    at_address "Testing Programmable Interval Timer: Waiting 2 seconds\n"
                        (omega arith) refl,
                    omega arith,
                    (
                      at_address "Waited 2 seconds\n" (omega arith) refl,
                      omega arith,
                      (
                        at_address "RTC Ticks: %d\n" (omega arith) refl,
                        omega arith,
                        (
                          at_address
                              "Testing Internal PC Speaker\nYou will hear a beep if present\n"
                              (omega arith) refl,
                          omega arith,
                          (at_address "System Loaded\n" (omega arith) refl, omega arith, tt),
                        ),
                      ),
                    ),
                  ),
                ),
              ),
            ),
          ),
        ),
      ),
    ),
  ),
)

megabytes-IsSuffix : IsSuffix booting 2400 (bytes "MB")
unfolding bytes holds
megabytes-IsSuffix = record {
  address = omega arith;
  text = refl;
  apart = apart 2400 (bytes "MB") (omega arith) refl;
  short = omega arith;
}

kilobytes-IsSuffix : IsSuffix booting 2500 (bytes "KB")
unfolding bytes holds
kilobytes-IsSuffix = record {
  address = omega arith;
  text = refl;
  apart = apart 2500 (bytes "KB") (omega arith) refl;
  short = omega arith;
}

pub some_there : (i : ℕ) → rom (200 + i) ≢ none
some_there i e = ground arith

kmain-IsSeen_example :
    Returns
      (λ (u, left).
        Returns
          (λ s.
            IsSeen (boot_lines 130048 0) s.terminal
            × (cursor s.log ≡ 15 * 80)
            × SameOutside 200 20 rom s.mem)
          (replay address 100 200 3000 u.system.log
            (record { mem = rom; terminal = cursor_at 3 4; log = [] })))
      (kmain silent (λ i. 0) placed multiboot_bootloader_magic boot_info (ticking 4100) fresh)
kmain-IsSeen_example =
    kmain-IsSeen silent (λ i. 0) placed boot_info (ticking 4100) fresh booting address 100
      (cursor_at 3 4) fresh-IsFresh refl (ticking-IsQuiet 4100)
      (omega (arith, ticks_of-ticking 4100)) (omega arith) (omega arith) literals-IsLoaded
      megabytes-IsSuffix kilobytes-IsSuffix (λ i lt. some_there i)

refusal-IsLoaded : IsLoaded booting address 100 refusal
unfolding IsLoaded bytes holds
refusal-IsLoaded = (at_address "INVALID_MULTIBOOT NUMBER!\n" (omega arith) refl, omega arith, tt)

kmain-refused_example :
    Returns
      (λ (u, left).
        (left ≡ [])
        × (u ≡ record fresh { system = record fresh.system { log = u.system.log } })
        × Returns
            (λ s.
              IsSeen ((12, bytes "INVALID_MULTIBOOT NUMBER!") ∷ []) s.terminal
              × (cursor s.log ≡ 80)
              × SameOutside 200 20 rom s.mem)
            (replay address 100 200 3000 u.system.log
              (record { mem = rom; terminal = cursor_at 3 4; log = [] })))
      (kmain silent (λ i. 0) placed 17 boot_info [] fresh)
kmain-refused_example =
    kmain-refused silent (λ i. 0) placed 17 boot_info [] fresh booting address 100 (cursor_at 3 4)
      (omega arith) refl refusal-IsLoaded (λ i lt. some_there i)
