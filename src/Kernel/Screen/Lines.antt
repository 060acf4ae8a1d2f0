-- ===== src/Kernel/Screen/Lines.antt =====
-- Lines of text on the screen.
use free_micro_nix.Base.{
  ℕ, zero, suc, ◌+◌, ◌*◌, ◌≤◌, ◌<◌, ◌≡◌, refl, sym, ap, ◌∙◌, ◌≢◌, ◌⊎◌, inl, inr, Bool, true, not,
  ◌&&◌, List, [], ◌∷◌, ◌++◌, arith, ltb, ◌==◌, if◌then◌else◌, Bool-cases, length, length-append,
}
use free_micro_nix.Libc.Str.Text.{every}
use free_micro_nix.Kernel.Vga.{Terminal, glyph, update, terminal_putch}
use free_micro_nix.Kernel.Vga.Putch.{IsPlain, terminal_putch_plain, terminal_putch_newline}
use free_micro_nix.Kernel.Vga.Print.Formatted.{typed, typed-append}

-- A colour and the text that is shown in it.
abbrev pub Line : Type 0
Line = ℕ × List ℕ

-- The cell of column `x` in a line's row; behind the text the row is blank.
unfoldable pub line_cell : ℕ → List ℕ → ℕ → ℕ
line_cell color [] x = 0x0720
line_cell color (c ∷ cs) zero = glyph color c
line_cell color (c ∷ cs) (suc x) = line_cell color cs x

-- The cell in row `y` and column `x`; below the lines the screen is blank.
unfoldable pub looks : List Line → ℕ → ℕ → ℕ
looks [] y x = 0x0720
looks ((color, text) ∷ lines) zero x = line_cell color text x
looks (line ∷ lines) (suc y) x = looks lines y x

-- The screen shows these lines from its top row on, and the cursor is at the start of the next.
pub record Shows (lines : List Line) (t : Terminal) : Type 0 where
  pub row : t.row ≡ length lines
  pub column : t.column ≡ 0
  pub cell : (y x : ℕ) → y < 25 → x < 80 → t.cell (y * 80 + x) ≡ looks lines y x

-- The character does not move the cursor in a way of its own.
abbrev pub is_still : ℕ → Bool
is_still c = not (c == b'\n') && not (c == b'\t') && not (c == 8) && not (c == b'\r')

abbrev pub is_plain_text : List ℕ → Bool
is_plain_text cs = every is_still cs

-- The cells after a text was written from the cell `p` on.
unfoldable over : ℕ → ℕ → List ℕ → (ℕ → ℕ) → ℕ → ℕ
over color p [] cell i = cell i
over color p (c ∷ cs) cell i = over color (p + 1) cs (update cell p (glyph color c)) i

over-out :
    (color p : ℕ) (cs : List ℕ) (cell : ℕ → ℕ) (i : ℕ)
    → (i < p) ⊎ (p + length cs ≤ i)
    → over color p cs cell i ≡ cell i
unfolding over
over-out color p [] cell i out = refl
over-out color p (c ∷ cs) cell i out =
    ground (arith, over-out color (p + 1) cs (update cell p (glyph color c)) i)

over-line :
    (color p : ℕ) (cs : List ℕ) (cell : ℕ → ℕ) (x : ℕ)
    → cell (p + x) ≡ 0x0720
    → over color p cs cell (p + x) ≡ line_cell color cs x
unfolding over line_cell
over-line color p [] cell x blank = blank
over-line color p (c ∷ cs) cell zero blank =
    ground (arith, over-out color (p + 1) cs (update cell p (glyph color c)) (p + 0))
over-line color p (c ∷ cs) cell (suc x) blank =
    let shift : p + suc x ≡ p + 1 + x = omega arith in
    rw shift (over-line color (p + 1) cs (update cell p (glyph color c)) x (ground arith))

over_congr :
    (color p : ℕ) (cs : List ℕ) (f g : ℕ → ℕ) (i : ℕ)
    → ((j : ℕ) → f j ≡ g j)
    → over color p cs f i ≡ over color p cs g i
unfolding over
over_congr color p [] f g i same = same i
over_congr color p (c ∷ cs) f g i same =
    over_congr color (p + 1) cs (update f p (glyph color c)) (update g p (glyph color c)) i
      λ j. ground (arith, same j)

-- What typing a text within a row of the screen does.
record Typed (cs : List ℕ) (t u : Terminal) : Type 0 where
  row : u.row ≡ t.row
  column : u.column ≡ t.column + length cs
  color : u.color ≡ t.color
  cell : (i : ℕ) → u.cell i ≡ over t.color (t.row * 80 + t.column) cs t.cell i

typed-Typed :
    (cs : List ℕ) (t : Terminal)
    → is_plain_text cs ≡ true
    → t.column + length cs ≤ 80
    → t.row < 25
    → Typed cs t (typed cs t)
unfolding typed every over
typed-Typed [] t plain fits low = record {
  row = refl;
  column = omega arith;
  color = refl;
  cell = λ i. refl;
}
typed-Typed (c ∷ cs) t plain fits low =
    let is_plain : IsPlain c = (ground arith, ground arith, ground arith, ground arith) in
    let (row, column, color, cell) = terminal_putch_plain c t is_plain (omega arith) low in
    let rest =
      typed-Typed cs (terminal_putch c t) (ground arith) (omega (arith, column))
        (omega (arith, row)) in
    let u = terminal_putch c t in
    let at : u.row * 80 + u.column ≡ t.row * 80 + t.column + 1 = omega (arith, row, column) in
    record {
      row = rest.row ∙ row;
      column = omega (arith, rest.column, column);
      color = rest.color ∙ color;
      cell = λ i.
          rest.cell i
          ∙ ap (λ q. over q (u.row * 80 + u.column) cs u.cell i) color
          ∙ ap (λ q. over t.color q cs u.cell i) at
          ∙ over_congr t.color (t.row * 80 + t.column + 1) cs u.cell
              (update t.cell (t.row * 80 + t.column) (glyph t.color c)) i cell;
    }

looks-below : (lines : List Line) (y x : ℕ) → length lines ≤ y → looks lines y x ≡ 0x0720
unfolding looks
looks-below [] y x below = refl
looks-below (line ∷ lines) zero x below = absurd (omega arith)
looks-below (line ∷ lines) (suc y) x below = looks-below lines y x (omega arith)

looks-append :
    (lines : List Line) (color : ℕ) (cs : List ℕ) (y x : ℕ)
    → looks (lines ++ (color, cs) ∷ []) y x
      ≡ (if y == length lines then line_cell color cs x else looks lines y x)
unfolding looks
looks-append [] color cs zero x = refl
looks-append [] color cs (suc y) x = ground arith
looks-append (line ∷ lines) color cs zero x = ground arith
looks-append (line ∷ lines) color cs (suc y) x = ground (arith, looks-append lines color cs y x)

rows_apart :
    (y row column x n : ℕ)
    → x < 80
    → n ≤ 80
    → column ≡ 0
    → y ≢ row
    → (y * 80 + x < row * 80 + column) ⊎ (row * 80 + column + n ≤ y * 80 + x)
rows_apart y row column x n narrow fits start ne = elim (Bool-cases (ltb y row)) [
  | inl above ↦ inl (ground arith)
  | inr below ↦ inr (ground arith)
]

-- The cells behind a text that was written into the row below the lines.
over-looks :
    (lines : List Line) (cs : List ℕ) (t : Terminal)
    → Shows lines t
    → length cs ≤ 80
    → (y x : ℕ) → y < 25
    → x < 80
    → over t.color (t.row * 80 + t.column) cs t.cell (y * 80 + x)
      ≡ looks (lines ++ (t.color, cs) ∷ []) y x
over-looks lines cs t shows fits y x low narrow =
    let p = t.row * 80 + t.column in
    let there = looks-append lines t.color cs y x in
    elim (Bool-cases (y == length lines)) [
      | inl on ↦
          let at : y * 80 + x ≡ p + x = ground (arith, shows.row, shows.column) in
          let blank : t.cell (p + x) ≡ 0x0720 =
            ap t.cell (sym at) ∙ shows.cell y x low narrow ∙ looks-below lines y x (ground arith) in
          ap (λ i. over t.color p cs t.cell i) at
          ∙ over-line t.color p cs t.cell x blank
          ∙ sym (rw on at there)
      | inr off ↦
          over-out t.color p cs t.cell (y * 80 + x) (
            rows_apart y t.row t.column x (length cs) narrow fits shows.column
              (ground (arith, shows.row)))
          ∙ shows.cell y x low narrow
          ∙ sym (rw off at there)
    ]

-- One more line, with the newline behind it.
pub typed-line :
    (lines : List Line) (cs : List ℕ) (t : Terminal)
    → Shows lines t
    → is_plain_text cs ≡ true
    → length cs ≤ 80
    → length lines < 25
    → Shows (lines ++ (t.color, cs) ∷ []) (typed (cs ++ b'\n' ∷ []) t)
      × ((typed (cs ++ b'\n' ∷ []) t).color ≡ t.color)
unfolding typed
typed-line lines cs t shows plain fits room =
    let line = typed-Typed cs t plain (omega (arith, shows.column)) (omega (arith, shows.row)) in
    let u = typed cs t in
    let newline = terminal_putch_newline u (omega (arith, line.row, shows.row)) in
    rw (typed-append cs (b'\n' ∷ []) t) (
      rw newline (
        record {
          row = omega (arith, line.row, shows.row, length-append lines ((t.color, cs) ∷ []));
          column = refl;
          cell = λ y x low narrow.
              line.cell (y * 80 + x) ∙ over-looks lines cs t shows fits y x low narrow;
        },
        line.color,
      ))
