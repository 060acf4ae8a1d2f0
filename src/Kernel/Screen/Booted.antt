-- ===== src/Kernel/Screen/Booted.antt =====
-- The screen that kmain leaves.
use free_micro_nix.Base.{
  ℕ, ◌*◌, ◌/◌, ◌^◌, ◌≤◌, ◌<◌, ◌≡◌, refl, inl, inr, false, List, [], ◌∷◌, ◌++◌, arith, ltb, ◌==◌,
  if◌then◌else◌, Bool-cases, Returns, Returns-mono,
}
use free_micro_nix.Kernel.Screen.Legible.{boot_lines-IsLegible}
use free_micro_nix.Kernel.Screen.Seen.{IsSeen}
use free_micro_nix.Kernel.Screen.Asking.{asking, asking-IsFed, plain-IsPrintable}
use free_micro_nix.Kernel.Screen.Cleared.{cleared-IsSeen}
use Prim.Native.String.{String}
use free_micro_nix.Mem.{IsObject, SameOutside}
use free_micro_nix.Kernel.Port.{Bus}
use free_micro_nix.Kernel.Vga.{Terminal}
use free_micro_nix.Kernel.Vga.Print.Formatted.{Setting, IsPrintable, IsConvertible}
use free_micro_nix.Kernel.Vga.Print.Literal.{
  bytes, is_plain, IsPrintable-append, IsPrintable-conversion,
}
use free_micro_nix.Kernel.Multiboot.{MultibootInfo}
use free_micro_nix.Kernel.Entry.{Layout}
use free_micro_nix.Kernel.Entry.Transcript.{opening, ending}
use free_micro_nix.Kernel.Screen.{replay}
use free_micro_nix.Kernel.Screen.Replay.{IsLoaded, IsFed, settles}
use free_micro_nix.Kernel.Screen.Boot.{IsSuffix, boot_lines, boot-Prints}
use free_micro_nix.Kernel.Multiboot.{multiboot_bootloader_magic}
use free_micro_nix.Kernel.Interrupt.{Context}
use free_micro_nix.Kernel.Pit.Wait.{IsQuiet, ticks_of}
use free_micro_nix.Kernel.Entry.{Machine, kmain}
use free_micro_nix.Kernel.Entry.Loaded.{IsFresh}
use free_micro_nix.Kernel.Entry.Transcript.{kmain-visible}
use free_micro_nix.Kernel.Port.Visible.{visible}
use free_micro_nix.Kernel.Vga.Print.Pointed.{is_whole}
use free_micro_nix.Kernel.Vga.Cursor.{cursor}

decimal : (e : Setting) (arg : ℕ) → arg < 2 ^ 31 → IsConvertible e b'd' arg
decimal e arg lt = record { number = λ d. (omega arith, inl lt); text = λ s. absurd (omega arith) }

suffix-IsConvertible :
    (e : Setting) (p : ℕ) (cs : List ℕ) → IsSuffix e p cs → IsConvertible e b's' p
suffix-IsConvertible e p cs s =
    let nonzero : (p == 0) ≡ false = ground (arith, s.address) in
    record {
      number = λ x. absurd (ground arith);
      text = λ x. rw nonzero (rw s.text (s.apart, s.short));
    }

memory-IsPrintable :
    (e : Setting) (n p k : ℕ)
    → n < 2 ^ 31
    → k < 2 ^ 31
    → IsConvertible e b's' p
    → IsPrintable e false (bytes "Available Memory: %d%s (%dKB)\n") (n ∷ p ∷ k ∷ [])
unfolding bytes is_plain
memory-IsPrintable e n p k lt lt' suffix =
    IsPrintable-append e (bytes "Available Memory: ") (bytes "%d%s (%dKB)\n") (n ∷ p ∷ k ∷ []) refl
      (IsPrintable-conversion e b'd' n (bytes "%s (%dKB)\n") (p ∷ k ∷ []) (decimal e n lt) (
        IsPrintable-conversion e b's' p (bytes " (%dKB)\n") (k ∷ []) suffix (
          IsPrintable-append e (bytes " (") (bytes "%dKB)\n") (k ∷ []) refl (
            IsPrintable-conversion e b'd' k (bytes "KB)\n") [] (decimal e k lt')
              (plain-IsPrintable e (bytes "KB)\n") [] refl)))))

clock-IsPrintable :
    (e : Setting) (n : ℕ) → n < 2 ^ 31 → IsPrintable e false (bytes "RTC Ticks: %d\n") (n ∷ [])
unfolding bytes is_plain
clock-IsPrintable e n lt = IsPrintable-append e (bytes "RTC Ticks: ") (bytes "%d\n") (n ∷ []) refl (
    IsPrintable-conversion e b'd' n (bytes "\n") [] (decimal e n lt)
      (plain-IsPrintable e (bytes "\n") [] refl))

boot-IsFed :
    (e : Setting) (layout : Layout) (mbi : MultibootInfo) (rtc_ticks : ℕ)
    → IsSuffix e layout.megabytes (bytes "MB")
    → IsSuffix e layout.kilobytes (bytes "KB")
    → mbi.mem_upper < 2 ^ 31
    → rtc_ticks < 2 ^ 31
    → IsFed e (opening layout mbi ++ ending rtc_ticks)
unfolding asking IsFed bytes is_plain
boot-IsFed e layout mbi rtc_ticks mb kb fits fits' =
    let suffix : IsConvertible e b's'
        (if ltb 100000 mbi.mem_upper then layout.megabytes else layout.kilobytes) =
      elim (Bool-cases (ltb 100000 mbi.mem_upper)) [
        | inl large ↦ rw large (suffix-IsConvertible e layout.megabytes (bytes "MB") mb)
        | inr small ↦ rw small (suffix-IsConvertible e layout.kilobytes (bytes "KB") kb)
      ] in
    let scaled : mbi.mem_upper / (if ltb 100000 mbi.mem_upper then 1000 else 1) < 2 ^ 31 =
      ground arith in
    let memory =
      memory-IsPrintable e (mbi.mem_upper / (if ltb 100000 mbi.mem_upper then 1000 else 1))
        (if ltb 100000 mbi.mem_upper then layout.megabytes else layout.kilobytes) mbi.mem_upper
        scaled fits suffix in
    asking-IsFed e (opening layout mbi ++ ending rtc_ticks)
      (memory, (clock-IsPrintable e rtc_ticks fits', tt))

-- For the magic number of a multiboot loader, on a fresh machine with an empty log where no exception
-- arrives and the timer interrupts at least 4000 times, kmain gets to its end, and vga.c, run for each
-- entry of the log that kmain leaves, from any state of the terminal, gets to its end too: by the
-- adapter's reading of the text buffer the screen then shows the fifteen lines of the boot from its
-- top row on, the first in light blue and the others in grey, among them the reported memory and the
-- count of the clock in decimal, all on black, all else is blank, the cursor is at the start of row
-- 15, that of the video hardware as well, and no byte outside kprintf's buffer has changed. This is for the literals in memory apart from
-- the buffer, for fuel above each format's length plus 20 plus the bound on strings, and for a memory
-- size and a count of the clock below 2^31.
pub kmain-IsSeen :
    (bus : Bus) (msgs : ℕ → ℕ) (layout : Layout) (mbi : MultibootInfo) (arriving : List Context)
    (m : Machine) (e : Setting) (address : String → ℕ) (f : ℕ) (t : Terminal)
    → IsFresh m
    → m.system.log ≡ []
    → IsQuiet arriving
    → 4000 ≤ ticks_of arriving
    → mbi.mem_upper < 2 ^ 31
    → m.system.rtc_ticks < 2 ^ 31
    → IsLoaded e address f (opening layout mbi ++ ending m.system.rtc_ticks)
    → IsSuffix e layout.megabytes (bytes "MB")
    → IsSuffix e layout.kilobytes (bytes "KB")
    → IsObject e.mem e.buf 20
    → Returns
        (λ (u, left).
          Returns
            (λ s.
              IsSeen (boot_lines mbi.mem_upper m.system.rtc_ticks) s.terminal
              × (cursor s.log ≡ 15 * 80)
              × SameOutside e.buf 20 e.mem s.mem)
            (replay address f e.buf e.null_text u.system.log
              (record { mem = e.mem; terminal = t; log = [] })))
        (kmain bus msgs layout multiboot_bootloader_magic mbi arriving m)
unfolding visible settles is_whole bytes
kmain-IsSeen bus msgs layout mbi arriving m e address f t fresh silent q enough fits fits' loaded mb
      kb obj =
    Returns-mono (kmain-visible bus msgs layout mbi arriving m fresh q enough)
      λ (u, left) (seen, sounds).
        cleared-IsSeen e address f u.system.log (opening layout mbi ++ ending m.system.rtc_ticks)
          (boot_lines mbi.mem_upper m.system.rtc_ticks) t (rw silent at seen) loaded
          (boot-IsFed e layout mbi m.system.rtc_ticks mb kb fits fits')
          (boot-Prints e layout mbi m.system.rtc_ticks mb kb)
          (boot_lines-IsLegible mbi.mem_upper m.system.rtc_ticks) (omega arith) refl obj
