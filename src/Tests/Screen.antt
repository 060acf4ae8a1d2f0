-- ===== src/Tests/Screen.antt =====
-- The text terminal on a screen whose cell `i` holds the word `i`.
use free_micro_nix.Base.{ℕ, ◌+◌, ◌%◌, ◌≤◌, ◌<◌, ◌≡◌, true, some, arith, leb}
use free_micro_nix.Kernel.Vga.{Terminal, terminal_scroll, glyph, light_grey}
use free_micro_nix.Kernel.Vga.{color_code, make_color, light_red, blue, white}
use free_micro_nix.Kernel.Vga.Color.{decode, color_of, glyph-decode}
use free_micro_nix.Kernel.Vga.Scroll.{terminal_scroll_lem}
use free_micro_nix.Kernel.Vga.{terminal_putch}
use free_micro_nix.Kernel.Vga.Typing.{IsPut, terminal_putch-IsPut}

abbrev pub cursor_at : ℕ → ℕ → Terminal
cursor_at row column = record { row = row; column = column; color = 7; cell = λ i. i }

terminal_scroll_lem_example :
    let t = terminal_scroll (cursor_at 25 0) in
    ((i : ℕ) → i < 2000 → t.cell i ≡ i + 80)
    × ((i : ℕ) → 2000 ≤ i → t.cell i ≡ i)
    × (t.row ≡ 25)
    × (t.column ≡ 0)
terminal_scroll_lem_example = terminal_scroll_lem (cursor_at 25 0)

glyph-decode_example :
    let word = glyph (make_color (color_code light_red) (color_code blue)) 65 in
    (65 < 128
      → decode word ≡ (65, some light_red, color_of (color_code blue % 8), leb 8 (color_code blue)))
    × (128 ≤ 65 → decode word ≡ (65, some white, some light_grey, true))
glyph-decode_example = glyph-decode light_red blue 65 (omega arith)

terminal_putch-IsPut_example : IsPut b'\t' (cursor_at 3 75) (terminal_putch b'\t' (cursor_at 3 75))
terminal_putch-IsPut_example =
    terminal_putch-IsPut b'\t' (cursor_at 3 75) (omega arith) (omega arith)
