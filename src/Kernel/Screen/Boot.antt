-- ===== src/Kernel/Screen/Boot.antt =====
-- The lines that kmain writes.
use free_micro_nix.Base.{
  ℕ, ◌/◌, ◌≤◌, ◌<◌, ◌≡◌, refl, inl, inr, true, false, List, [], ◌∷◌, ◌++◌, arith, ltb,
  if◌then◌else◌, Bool-cases, length, length-append,
}
use mathlib.Core.List.{append_assoc}
use free_micro_nix.Libc.Number.Numeral.{digit_char}
use free_micro_nix.Libc.Number.Format.Signed.{itoa_text, length-itoa_text}
use free_micro_nix.Kernel.Vga.Print.Formatted.{rendered, converted, Setting, Apart}
use free_micro_nix.Kernel.Vga.Print.Literal.{bytes}
use free_micro_nix.Kernel.Multiboot.{MultibootInfo}
use free_micro_nix.Kernel.Entry.{Layout}
use free_micro_nix.Kernel.Entry.Transcript.{opening, ending}
use free_micro_nix.Kernel.Screen.Lines.{Line, is_plain_text, is_still}
use free_micro_nix.Libc.Str.Text.{every}
use free_micro_nix.Libc.Str.Text.Every.{every-append, every-itoa_text}
use free_micro_nix.Kernel.Screen.Page.{
  Prints, finished, text, recolor, unlines, colored_lines, IsPage,
}

-- The line of the memory that the loader reported, in kilobytes, or in megabytes of 1000 of these.
unfoldable pub memory_line : ℕ → List ℕ
memory_line mem_upper =
    let large = ltb 100000 mem_upper in
    bytes "Available Memory: "
    ++ (itoa_text (mem_upper / (if large then 1000 else 1)) b'd'
        ++ ((if large then bytes "MB" else bytes "KB")
            ++ (bytes " (" ++ (itoa_text mem_upper b'd' ++ bytes "KB)"))))

unfoldable pub clock_line : ℕ → List ℕ
clock_line rtc_ticks = bytes "RTC Ticks: " ++ itoa_text rtc_ticks b'd'

-- Everything that kmain says, line by line.
abbrev pub boot_lines : ℕ → ℕ → List Line
boot_lines mem_upper rtc_ticks =
    (9, bytes "FreeMicroNix Version 0.1")
    ∷ (7, bytes "8254 PIT Initialized on channel 0")
    ∷ (7, bytes "Global Descriptor Table Initialized")
    ∷ (7, bytes "Task State Segment Initialized")
    ∷ (7, bytes "Interrupt Descriptor Table Initialized")
    ∷ (7, bytes "8259 PIC Successfully Initilialized")
    ∷ (7, bytes "Interrupt Handlers Installed")
    ∷ (7, memory_line mem_upper)
    ∷ (7, bytes "Interrupts Enabled")
    ∷ (7, bytes "Testing Programmable Interval Timer: Waiting 2 seconds")
    ∷ (7, bytes "Waited 2 seconds")
    ∷ (7, clock_line rtc_ticks)
    ∷ (7, bytes "Testing Internal PC Speaker")
    ∷ (7, bytes "You will hear a beep if present")
    ∷ (7, bytes "System Loaded")
    ∷ []

is_plain_text-itoa_text : (val : ℕ) → is_plain_text (itoa_text val b'd') ≡ true
unfolding digit_char
is_plain_text-itoa_text val = every-itoa_text is_still (λ d lt. ground arith) refl val

-- Where the literals "MB" and "KB" stand.
pub record IsSuffix (e : Setting) (p : ℕ) (cs : List ℕ) : Type 0 where
  pub address : 0 < p
  pub text : e.strings p ≡ cs
  pub apart : Apart e p cs
  pub short : length cs < e.limit

memory_rendered :
    (e : Setting) (layout : Layout) (mem_upper : ℕ)
    → IsSuffix e layout.megabytes (bytes "MB")
    → IsSuffix e layout.kilobytes (bytes "KB")
    → let large = ltb 100000 mem_upper in
      rendered e.strings false (bytes "Available Memory: %d%s (%dKB)\n") (
        mem_upper / (if large then 1000 else 1)
        ∷ (if large then layout.megabytes else layout.kilobytes)
        ∷ mem_upper
        ∷ [])
      ≡ unlines (memory_line mem_upper ∷ [])
unfolding rendered converted bytes unlines memory_line
memory_rendered e layout mem_upper mb kb = elim (Bool-cases (ltb 100000 mem_upper)) [
  | inl large ↦ rw large (rw mb.text (simp append_assoc))
  | inr small ↦ rw small (rw kb.text (simp append_assoc))
]

clock_rendered :
    (e : Setting) (rtc_ticks : ℕ)
    → rendered e.strings false (bytes "RTC Ticks: %d\n") (rtc_ticks ∷ [])
      ≡ unlines (clock_line rtc_ticks ∷ [])
unfolding rendered converted bytes unlines clock_line
clock_rendered e rtc_ticks = simp append_assoc

-- A line with two numbers and a short text between them.
amount_fits :
    (n k : ℕ) (suffix : List ℕ)
    → is_plain_text suffix ≡ true
    → length suffix ≤ 2
    → IsPage (
        (bytes "Available Memory: "
          ++ (itoa_text n b'd' ++ (suffix ++ (bytes " (" ++ (itoa_text k b'd' ++ bytes "KB)")))))
        ∷ [])
unfolding bytes every
amount_fits n k suffix plain short =
    let end = itoa_text k b'd' ++ bytes "KB)" in
    let last =
      every-append is_still (itoa_text k b'd') (bytes "KB)") (is_plain_text-itoa_text k) refl in
    let middle = every-append is_still suffix (bytes " (" ++ end) plain last in
    let size = length-append (itoa_text n b'd') (suffix ++ (bytes " (" ++ end)) in
    let size' = length-append suffix (bytes " (" ++ end) in
    let size'' = length-append (itoa_text k b'd') (bytes "KB)") in
    (
      every-append is_still (itoa_text n b'd') (suffix ++ (bytes " (" ++ end))
          (is_plain_text-itoa_text n) middle,
      omega (arith, size, size', size'', length-itoa_text n b'd', length-itoa_text k b'd'),
      tt,
    )

memory_fits : (mem_upper : ℕ) → IsPage (memory_line mem_upper ∷ [])
unfolding memory_line bytes every
memory_fits mem_upper = elim (Bool-cases (ltb 100000 mem_upper)) [
  | inl large ↦ rw large (amount_fits (mem_upper / 1000) mem_upper (bytes "MB") refl (omega arith))
  | inr small ↦ rw small (amount_fits (mem_upper / 1) mem_upper (bytes "KB") refl (omega arith))
]

clock_fits : (rtc_ticks : ℕ) → IsPage (clock_line rtc_ticks ∷ [])
unfolding clock_line bytes every
clock_fits rtc_ticks = (
  ground (arith, is_plain_text-itoa_text rtc_ticks),
  omega (arith, length-itoa_text rtc_ticks b'd'),
  tt,
)

-- Each message of kmain is one of these lines, but for the one that is two.
pub boot-Prints :
    (e : Setting) (layout : Layout) (mbi : MultibootInfo) (rtc_ticks : ℕ)
    → IsSuffix e layout.megabytes (bytes "MB")
    → IsSuffix e layout.kilobytes (bytes "KB")
    → Prints e.strings 7
        (opening layout mbi ++ ending rtc_ticks)
        (boot_lines mbi.mem_upper rtc_ticks)
unfolding rendered bytes unlines colored_lines every
boot-Prints e layout mbi rtc_ticks mb kb = recolor 9 (omega arith) (
    text (bytes "FreeMicroNix Version 0.1" ∷ []) refl (refl, omega arith, tt)
      (recolor 7 (omega arith) (
        text (bytes "8254 PIT Initialized on channel 0" ∷ []) refl (refl, omega arith, tt)
          (text (bytes "Global Descriptor Table Initialized" ∷ []) refl (refl, omega arith, tt)
            (text (bytes "Task State Segment Initialized" ∷ []) refl (refl, omega arith, tt)
              (text (bytes "Interrupt Descriptor Table Initialized" ∷ []) refl
                (refl, omega arith, tt)
                (text (bytes "8259 PIC Successfully Initilialized" ∷ []) refl
                  (refl, omega arith, tt)
                  (text (bytes "Interrupt Handlers Installed" ∷ []) refl (refl, omega arith, tt)
                    (text (memory_line mbi.mem_upper ∷ [])
                      (memory_rendered e layout mbi.mem_upper mb kb) (memory_fits mbi.mem_upper)
                      (text (bytes "Interrupts Enabled" ∷ []) refl (refl, omega arith, tt)
                        (text (bytes "Testing Programmable Interval Timer: Waiting 2 seconds" ∷ [])
                          refl (refl, omega arith, tt)
                          (text (bytes "Waited 2 seconds" ∷ []) refl (refl, omega arith, tt)
                            (text (clock_line rtc_ticks ∷ []) (clock_rendered e rtc_ticks)
                              (clock_fits rtc_ticks)
                              (text
                                (bytes "Testing Internal PC Speaker"
                                  ∷ bytes "You will hear a beep if present"
                                  ∷ [])
                                refl (refl, omega arith, (refl, omega arith, tt))
                                (text (bytes "System Loaded" ∷ []) refl (refl, omega arith, tt)
                                  finished)))))))))))))))
