-- ===== src/Kernel/Screen/Refused.antt =====
-- The screen that kmain leaves where it was loaded improperly.
use free_micro_nix.Libc.Str.Text.{every}
use free_micro_nix.Base.{ℕ, ◌≡◌, refl, ◌≢◌, false, List, [], ◌∷◌, arith, ◌==◌, Returns}
use Prim.Native.String.{String}
use free_micro_nix.Mem.{IsObject, SameOutside}
use free_micro_nix.Kernel.Port.{Bus, Log, colored, printed}
use free_micro_nix.Kernel.Vga.{Terminal}
use free_micro_nix.Kernel.Vga.Print.Formatted.{Setting}
use free_micro_nix.Kernel.Vga.Print.Literal.{bytes, is_plain}
use free_micro_nix.Kernel.Multiboot.{MultibootInfo}
use free_micro_nix.Kernel.Entry.{Layout}
use free_micro_nix.Kernel.Screen.Seen.{IsSeen}
use free_micro_nix.Kernel.Screen.{replay}
use free_micro_nix.Kernel.Screen.Page.{unlines, colored_lines, Prints, recolor, text, finished}
use free_micro_nix.Kernel.Screen.Replay.{IsLoaded, IsFed, settles}
use free_micro_nix.Kernel.Multiboot.{multiboot_bootloader_magic}
use free_micro_nix.Kernel.Interrupt.{Context}
use free_micro_nix.Kernel.Entry.{Machine, kmain}
use free_micro_nix.Kernel.Port.Visible.{visible}
use free_micro_nix.Kernel.Vga.Print.Formatted.{rendered}
use free_micro_nix.Kernel.Screen.Asking.{asking, asking-IsFed}
use free_micro_nix.Kernel.Screen.Cleared.{cleared-IsSeen}
use free_micro_nix.Kernel.Vga.Print.Pointed.{is_whole}
use free_micro_nix.Kernel.Vga.Cursor.{cursor}

-- What kmain says for a wrong magic number.
abbrev pub refusal : Log
refusal = colored 12 ∷ printed "INVALID_MULTIBOOT NUMBER!\n" [] ∷ colored 7 ∷ []

refusal-Prints :
    (strings : ℕ → List ℕ) → Prints strings 7 refusal ((12, bytes "INVALID_MULTIBOOT NUMBER!") ∷ [])
unfolding rendered bytes unlines colored_lines every
refusal-Prints strings = recolor 12 (omega arith) (
    text (bytes "INVALID_MULTIBOOT NUMBER!" ∷ []) refl (refl, omega arith, tt)
      (recolor 7 (omega arith) finished))

-- For any magic number but that of a multiboot loader, kmain returns at once: it takes none of the
-- arriving interrupts and changes nothing of the machine but the log. From an empty log, vga.c, run
-- for each entry of that log from any state of the terminal, gets to its end: by the adapter's reading
-- of the text buffer the screen then shows one line, the refusal in light red on black, all else is
-- blank, the cursor of the video hardware is at the start of the second row, and no byte outside kprintf's buffer has changed. This is for the literal in memory apart
-- from the buffer, and fuel above its length plus 20 plus the bound on strings.
pub kmain-refused :
    (bus : Bus) (msgs : ℕ → ℕ) (layout : Layout) (magic : ℕ) (mbi : MultibootInfo)
    (arriving : List Context) (m : Machine) (e : Setting) (address : String → ℕ) (f : ℕ)
    (t : Terminal)
    → magic ≢ multiboot_bootloader_magic
    → m.system.log ≡ []
    → IsLoaded e address f refusal
    → IsObject e.mem e.buf 20
    → Returns
        (λ (u, left).
          (left ≡ arriving)
          × (u ≡ record m { system = record m.system { log = u.system.log } })
          × Returns
              (λ s.
                IsSeen ((12, bytes "INVALID_MULTIBOOT NUMBER!") ∷ []) s.terminal
                × (cursor s.log ≡ 80)
                × SameOutside e.buf 20 e.mem s.mem)
              (replay address f e.buf e.null_text u.system.log
                (record { mem = e.mem; terminal = t; log = [] })))
        (kmain bus msgs layout magic mbi arriving m)
unfolding kmain settles is_whole visible asking IsFed bytes is_plain every
kmain-refused bus msgs layout magic mbi arriving m e address f t other silent loaded obj =
    let refused : (magic == multiboot_bootloader_magic) ≡ false = ground arith in
    rw refused (
      _,
      refl,
      (
        refl,
        refl,
        cleared-IsSeen e address f _ refusal ((12, bytes "INVALID_MULTIBOOT NUMBER!") ∷ []) t
            (rw silent refl) loaded (asking-IsFed e refusal tt) (refusal-Prints e.strings)
            (omega arith, refl, tt) (omega arith) refl obj,
      ),
    )
