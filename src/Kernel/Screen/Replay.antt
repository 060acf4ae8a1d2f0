-- ===== src/Kernel/Screen/Replay.antt =====
-- That the screen behind a log is what its entries are to show.
use free_micro_nix.Base.{
  ℕ, ◌+◌, ◌<◌, ◌≡◌, refl, ap, ◌∙◌, Bool, true, false, [], ◌∷◌, arith, length, Run, ◌>>=◌, Returns,
  Returns-bind, Returns-mono, ok, fault, timeout,
}
use Prim.Native.String.{String}
use free_micro_nix.Mem.{IsObject, SameOutside}
use free_micro_nix.Kernel.Port.{
  Log, printed, colored, terminal_initialized, out, inp, lgdt, lidt, ltr, out_word, out_double,
  inp_word, inp_double, cli, sti, hlt,
}
use free_micro_nix.Kernel.Port.Visible.{visible, visible_of}
use free_micro_nix.Kernel.Vga.{Terminal, initialize_terminal, terminal_set_color}
use free_micro_nix.Kernel.Vga.Print.{Console, kprintf}
use free_micro_nix.Kernel.Vga.Print.Formatted.{Setting, Apart, IsPrintable}
use free_micro_nix.Kernel.Vga.Print.Literal.{bytes}
use free_micro_nix.Kernel.Vga.Print.Refined.{kprintf_from}
use free_micro_nix.Kernel.Vga.Print.Pointed.{Points, is_whole}
use free_micro_nix.Kernel.Screen.{replay, display}

-- Every format of the log stands at its address, apart from the buffer, and `f` is enough fuel for it.
unfoldable pub IsLoaded : Setting → (String → ℕ) → ℕ → Log → Type 0
IsLoaded e address f [] = Unit {0}
IsLoaded e address f (printed format args ∷ log) =
    Apart e (address format) (bytes format)
    × (length (bytes format) + e.limit + 20 < f)
    × IsLoaded e address f log
IsLoaded e address f (other ∷ log) = IsLoaded e address f log

-- Every format of the log has the arguments that it asks for.
unfoldable pub IsFed : Setting → Log → Type 0
IsFed e [] = Unit {0}
IsFed e (printed format args ∷ log) = IsPrintable e false (bytes format) args × IsFed e log
IsFed e (other ∷ log) = IsFed e log

-- Whether the cursor of the hardware is at the terminal's place behind a log, from whether it was
-- there before.
unfoldable pub settles : Bool → Log → Bool
settles before [] = before
settles before (printed format args ∷ log) = settles (is_whole (bytes format)) log
settles before (terminal_initialized ∷ log) = settles false log
settles before (e ∷ log) = settles before log

-- The terminal is as it is to be, no byte outside kprintf's buffer has changed, and the cursor of the
-- hardware is where the last text ended.
pub record Displayed (e : Setting) (settled : Bool) (t : Terminal) (u : Console) : Type 0 where
  pub terminal : u.terminal ≡ t
  pub outside : SameOutside e.buf 20 e.mem u.mem
  pub buffer : IsObject u.mem e.buf 20
  pub points : settled ≡ true → Points u

module _ (e : Setting) (address : String → ℕ) (f : ℕ) where
  pub replay-Displayed :
      (before : Bool) (log : Log) (s : Console)
      → IsLoaded e address f log
      → IsFed e log
      → SameOutside e.buf 20 e.mem s.mem
      → IsObject s.mem e.buf 20
      → (before ≡ true → Points s)
      → Returns
          (Displayed e (settles before log) (display e.strings log s.terminal))
          (replay address f e.buf e.null_text log s)
  unfolding replay display IsLoaded IsFed settles terminal_set_color
  replay-Displayed before [] s loaded fed same obj at =
      (s, refl, record { terminal = refl; outside = same; buffer = obj; points = at })
  replay-Displayed before (printed format args ∷ log) s (apart, fuel, loaded) (can, fed) same obj
        at =
      Returns-bind (kprintf_from e (bytes format) args f (address format) s apart can fuel same obj)
        λ u (done, points).
          Returns-mono
            (replay-Displayed (is_whole (bytes format)) log u loaded fed done.outside done.buffer
              points)
            λ v shown. record {
              terminal = shown.terminal ∙ ap (display e.strings log) done.terminal;
              outside = shown.outside;
              buffer = shown.buffer;
              points = shown.points;
            }
  replay-Displayed before (colored c ∷ log) s loaded fed same obj at =
      replay-Displayed before log (record s { terminal = terminal_set_color c s.terminal }) loaded
        fed same obj at
  replay-Displayed before (terminal_initialized ∷ log) s loaded fed same obj at =
      replay-Displayed false log (record s { terminal = initialize_terminal s.terminal }) loaded fed
        same obj (λ no. absurd (ground arith))
  replay-Displayed before (out p v ∷ log) s loaded fed same obj at =
      replay-Displayed before log s loaded fed same obj at
  replay-Displayed before (inp p ∷ log) s loaded fed same obj at =
      replay-Displayed before log s loaded fed same obj at
  replay-Displayed before (lgdt l a ∷ log) s loaded fed same obj at =
      replay-Displayed before log s loaded fed same obj at
  replay-Displayed before (lidt l a ∷ log) s loaded fed same obj at =
      replay-Displayed before log s loaded fed same obj at
  replay-Displayed before (ltr x ∷ log) s loaded fed same obj at =
      replay-Displayed before log s loaded fed same obj at
  replay-Displayed before (out_word p v ∷ log) s loaded fed same obj at =
      replay-Displayed before log s loaded fed same obj at
  replay-Displayed before (out_double p v ∷ log) s loaded fed same obj at =
      replay-Displayed before log s loaded fed same obj at
  replay-Displayed before (inp_word p ∷ log) s loaded fed same obj at =
      replay-Displayed before log s loaded fed same obj at
  replay-Displayed before (inp_double p ∷ log) s loaded fed same obj at =
      replay-Displayed before log s loaded fed same obj at
  replay-Displayed before (cli ∷ log) s loaded fed same obj at =
      replay-Displayed before log s loaded fed same obj at
  replay-Displayed before (sti ∷ log) s loaded fed same obj at =
      replay-Displayed before log s loaded fed same obj at
  replay-Displayed before (hlt ∷ log) s loaded fed same obj at =
      replay-Displayed before log s loaded fed same obj at

bind_congr :
    (r : Run Console) (g h : Console → Run Console)
    → ((u : Console) → g u ≡ h u)
    → (r >>= g) ≡ (r >>= h)
bind_congr (ok u) g h same = same u
bind_congr fault g h same = refl
bind_congr timeout g h same = refl

-- Entries that are not to be seen change nothing.
pub replay-visible :
    (address : String → ℕ) (f buf null_text : ℕ) (log : Log) (s : Console)
    → replay address f buf null_text (visible log) s ≡ replay address f buf null_text log s
unfolding replay visible visible_of
replay-visible address f buf null_text [] s = refl
replay-visible address f buf null_text (printed format args ∷ log) s =
    bind_congr (kprintf f buf null_text (address format) args s)
      (λ u. replay address f buf null_text (visible log) u)
      (λ u. replay address f buf null_text log u) λ u. replay-visible address f buf null_text log u
replay-visible address f buf null_text (colored c ∷ log) s =
    replay-visible address f buf null_text log
      (record s { terminal = terminal_set_color c s.terminal })
replay-visible address f buf null_text (terminal_initialized ∷ log) s =
    replay-visible address f buf null_text log
      (record s { terminal = initialize_terminal s.terminal })
replay-visible address f buf null_text (out p v ∷ log) s =
    replay-visible address f buf null_text log s
replay-visible address f buf null_text (inp p ∷ log) s =
    replay-visible address f buf null_text log s
replay-visible address f buf null_text (lgdt l a ∷ log) s =
    replay-visible address f buf null_text log s
replay-visible address f buf null_text (lidt l a ∷ log) s =
    replay-visible address f buf null_text log s
replay-visible address f buf null_text (ltr x ∷ log) s =
    replay-visible address f buf null_text log s
replay-visible address f buf null_text (out_word p v ∷ log) s =
    replay-visible address f buf null_text log s
replay-visible address f buf null_text (out_double p v ∷ log) s =
    replay-visible address f buf null_text log s
replay-visible address f buf null_text (inp_word p ∷ log) s =
    replay-visible address f buf null_text log s
replay-visible address f buf null_text (inp_double p ∷ log) s =
    replay-visible address f buf null_text log s
replay-visible address f buf null_text (cli ∷ log) s = replay-visible address f buf null_text log s
replay-visible address f buf null_text (sti ∷ log) s = replay-visible address f buf null_text log s
replay-visible address f buf null_text (hlt ∷ log) s = replay-visible address f buf null_text log s
