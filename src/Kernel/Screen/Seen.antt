-- ===== src/Kernel/Screen/Seen.antt =====
-- What the adapter makes of lines of text on the screen.
use free_micro_nix.Base.{
  ℕ, zero, suc, ◌+◌, ◌*◌, ◌<◌, ◌≡◌, refl, ap, ◌∙◌, Bool, true, false, Option, some, List, [], ◌∷◌,
  arith, ltb, length,
}
use free_micro_nix.Libc.Str.Text.{every}
use free_micro_nix.Kernel.Vga.{Terminal, VgaColor, light_grey, black, glyph}
use free_micro_nix.Kernel.Vga.Color.{decode, color_of, decode-fields, glyph-ascii}
use free_micro_nix.Kernel.Screen.Lines.{Line, Shows, line_cell, looks}

-- A blank in the terminal's first colours.
abbrev blank : ℕ × Option VgaColor × Option VgaColor × Bool
blank = (b' ', some light_grey, some black, false)

-- The character in column `x` of a row, its colours and that it does not blink; behind the text the row is blank.
unfoldable seen_in : ℕ → List ℕ → ℕ → ℕ × Option VgaColor × Option VgaColor × Bool
seen_in color [] x = blank
seen_in color (c ∷ cs) zero = (c, color_of color, some black, false)
seen_in color (c ∷ cs) (suc x) = seen_in color cs x

-- The same on the screen; below the lines it is blank.
unfoldable pub seen : List Line → ℕ → ℕ → ℕ × Option VgaColor × Option VgaColor × Bool
unfolding seen_in
seen [] y x = blank
seen ((color, text) ∷ lines) zero x = seen_in color text x
seen (line ∷ lines) (suc y) x = seen lines y x

abbrev pub is_low : ℕ → Bool
is_low c = ltb c 128

abbrev pub is_ascii : List ℕ → Bool
is_ascii cs = every is_low cs

-- The lines are in ASCII, in colours that there are.
abbrev pub IsLegible : List Line → Type 0
IsLegible [] = Unit {0}
IsLegible ((color, text) ∷ lines) = (color < 16) × (is_ascii text ≡ true) × IsLegible lines

line_cell-decode :
    (color : ℕ) (cs : List ℕ) (x : ℕ)
    → color < 16
    → is_ascii cs ≡ true
    → decode (line_cell color cs x) ≡ seen_in color cs x
unfolding line_cell seen_in every decode color_of
line_cell-decode color [] x low ascii = refl
line_cell-decode color (c ∷ cs) zero low ascii =
    let small : c < 128 = ground arith in
    decode-fields (glyph color c) c color 0 (omega (arith, glyph-ascii color c (omega arith) small))
      (omega arith) low
line_cell-decode color (c ∷ cs) (suc x) low ascii = line_cell-decode color cs x low (ground arith)

looks-decode :
    (lines : List Line) (y x : ℕ) → IsLegible lines → decode (looks lines y x) ≡ seen lines y x
unfolding looks seen decode color_of
looks-decode [] y x legible = refl
looks-decode ((color, text) ∷ lines) zero x (low, ascii, legible) =
    line_cell-decode color text x low ascii
looks-decode ((color, text) ∷ lines) (suc y) x (low, ascii, legible) =
    looks-decode lines y x legible

-- The adapter shows these lines from the top row on and nothing else, and the cursor is at the start of
-- the row below them.
pub record IsSeen (lines : List Line) (t : Terminal) : Type 0 where
  pub row : t.row ≡ length lines
  pub column : t.column ≡ 0
  pub word : (y x : ℕ) → y < 25 → x < 80 → decode (t.cell (y * 80 + x)) ≡ seen lines y x

pub Shows-IsSeen :
    (lines : List Line) (t : Terminal) → Shows lines t → IsLegible lines → IsSeen lines t
Shows-IsSeen lines t shows legible = record {
  row = shows.row;
  column = shows.column;
  word = λ y x low narrow. ap decode (shows.cell y x low narrow) ∙ looks-decode lines y x legible;
}
