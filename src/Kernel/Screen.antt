-- ===== src/Kernel/Screen.antt =====
-- The screen behind a log: vga.c run for each entry that changes it.
pub mod Replay
pub mod Lines
pub mod Page
pub mod Seen
pub mod Boot
pub mod Asking
pub mod Cleared
pub mod Legible
pub mod Booted
pub mod Refused
pub mod Report
pub mod Dumped
use free_micro_nix.Base.{ℕ, false, Run, ok, List, [], ◌∷◌, ◌>>=◌}
use Prim.Native.String.{String}
use free_micro_nix.Kernel.Port.{Log, printed, colored, terminal_initialized}
use free_micro_nix.Kernel.Vga.{Terminal, initialize_terminal, terminal_set_color}
use free_micro_nix.Kernel.Vga.Print.{Console, kprintf}
use free_micro_nix.Kernel.Vga.Print.Formatted.{typed, rendered}
use free_micro_nix.Kernel.Vga.Print.Literal.{bytes}

-- kprintf, Terminal_Set_Color and Initialize_Terminal, in the order of the log; `address` is where a
-- literal stands.
unfoldable pub replay : (String → ℕ) → ℕ → ℕ → ℕ → Log → Console → Run Console
replay address f buf null_text [] s = ok s
replay address f buf null_text (printed format args ∷ log) s = do
  s ← kprintf f buf null_text (address format) args s
  replay address f buf null_text log s
replay address f buf null_text (colored c ∷ log) s =
    replay address f buf null_text log (record s { terminal = terminal_set_color c s.terminal })
replay address f buf null_text (terminal_initialized ∷ log) s =
    replay address f buf null_text log (record s { terminal = initialize_terminal s.terminal })
replay address f buf null_text (e ∷ log) s = replay address f buf null_text log s

-- What the terminal is to be then.
unfoldable pub display : (ℕ → List ℕ) → Log → Terminal → Terminal
display strings [] t = t
display strings (printed format args ∷ log) t =
    display strings log (typed (rendered strings false (bytes format) args) t)
display strings (colored c ∷ log) t = display strings log (terminal_set_color c t)
display strings (terminal_initialized ∷ log) t = display strings log (initialize_terminal t)
display strings (e ∷ log) t = display strings log t
