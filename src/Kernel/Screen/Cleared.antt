-- ===== src/Kernel/Screen/Cleared.antt =====
-- What a log that starts with a cleared screen leaves on it.
use free_micro_nix.Base.{
  ℕ, ◌+◌, ◌*◌, ◌≤◌, ◌≡◌, refl, sym, ap, ◌∙◌, true, false, List, [], ◌∷◌, arith, length, Returns,
  Returns-mono,
}
use Prim.Native.String.{String}
use free_micro_nix.Mem.{IsObject, SameOutside}
use free_micro_nix.Kernel.Port.{terminal_initialized, Log}
use free_micro_nix.Kernel.Vga.{Terminal, initialize_terminal}
use free_micro_nix.Kernel.Vga.Scroll.{initialize_terminal_lem}
use free_micro_nix.Kernel.Vga.Print.{Console}
use free_micro_nix.Kernel.Vga.Print.Formatted.{Setting}
use free_micro_nix.Kernel.Screen.Seen.{IsSeen, IsLegible, Shows-IsSeen}
use free_micro_nix.Kernel.Screen.{replay, display}
use free_micro_nix.Kernel.Screen.Lines.{Shows, looks, Line}
use free_micro_nix.Kernel.Screen.Page.{display-Shows, Prints}
use free_micro_nix.Kernel.Screen.Replay.{IsLoaded, IsFed, replay-Displayed, replay-visible, settles}
use free_micro_nix.Kernel.Port.Visible.{visible}
use free_micro_nix.Kernel.Vga.Cursor.{cursor}

-- A cleared screen shows no line.
initialize_terminal-Shows : (t : Terminal) → Shows [] (initialize_terminal t)
unfolding looks
initialize_terminal-Shows t =
    let (row, column, color, cells, kept) = initialize_terminal_lem t in
    record { row = row; column = column; cell = λ y x low narrow. cells (y * 80 + x) (omega arith) }

-- A log that starts by clearing the screen, and then prints some lines that fit on it.
pub cleared-IsSeen :
    (e : Setting) (address : String → ℕ) (f : ℕ) (log said : Log) (lines : List Line) (t : Terminal)
    → visible log ≡ terminal_initialized ∷ said
    → IsLoaded e address f said
    → IsFed e said
    → Prints e.strings 7 said lines
    → IsLegible lines
    → length lines ≤ 25
    → settles false said ≡ true
    → IsObject e.mem e.buf 20
    → Returns
        (λ s.
          IsSeen lines s.terminal
          × (cursor s.log ≡ length lines * 80)
          × SameOutside e.buf 20 e.mem s.mem)
        (replay address f e.buf e.null_text log (record { mem = e.mem; terminal = t; log = [] }))
unfolding IsLoaded IsFed display settles
cleared-IsSeen e address f log said lines t seen loaded fed prints legible room settled obj =
    let start : Console = record { mem = e.mem; terminal = t; log = [] } in
    let same =
      sym (replay-visible address f e.buf e.null_text log start)
      ∙ ap (λ l. replay address f e.buf e.null_text l start) seen in
    let (row, column, color, cells, kept) = initialize_terminal_lem t in
    rw same (
      Returns-mono
        (replay-Displayed e address f false (terminal_initialized ∷ said) start loaded fed
          (λ a out. refl) obj (λ yes. absurd (ground arith)))
        λ s shown.
          let shows : Shows lines s.terminal = rw shown.terminal (
            display-Shows [] (initialize_terminal t) prints color (initialize_terminal-Shows t)
              (omega arith)) in
          (
            Shows-IsSeen lines s.terminal shows legible,
            omega (arith, shown.points settled, shows.row, shows.column),
            shown.outside,
          ))
