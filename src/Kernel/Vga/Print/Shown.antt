-- ===== src/Kernel/Vga/Print/Shown.antt =====
-- What Terminal_Print shows.
use free_micro_nix.Base.{ℕ, ◌+◌, ◌<◌, ◌≡◌, refl, List, [], ◌∷◌, length, ok}
use free_micro_nix.Mem.{CString}
use free_micro_nix.Mem.Laws.{load-ok}
use free_micro_nix.Libc.Str.Scan.Laws.{strlen-length}
use free_micro_nix.Kernel.Vga.Print.{Console, putch_on, cursor_on, print_loop, terminal_print}

-- The characters of a text, one after the other.
unfoldable pub shown : List ℕ → Console → Console
shown [] s = s
shown (c ∷ cs) s = shown cs (putch_on c s)

print_loop-shown :
    (cs : List ℕ) (p : ℕ) (s : Console)
    → CString s.mem p cs
    → print_loop (length cs) p s ≡ ok (shown cs s)
unfolding print_loop shown
print_loop-shown [] p s here = refl
print_loop-shown (c ∷ cs) p s (here, lc, uc, rest) =
    rw (load-ok s.mem p here) (print_loop-shown cs (p + 1) (putch_on c s) rest)

-- `Terminal_Print` of a string, with more fuel than it has characters, puts its characters on the
-- terminal in their order, and then moves the hardware's cursor once.
pub terminal_print-shown :
    (cs : List ℕ) (f : ℕ) (p : ℕ) (s : Console)
    → CString s.mem p cs
    → length cs < f
    → terminal_print f p s ≡ ok (cursor_on (shown cs s))
unfolding terminal_print
terminal_print-shown cs f p s str lt =
    rw (strlen-length cs f s.mem p str lt) (rw (print_loop-shown cs p s str) refl)
