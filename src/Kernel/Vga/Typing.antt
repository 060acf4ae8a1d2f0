-- ===== src/Kernel/Vga/Typing.antt =====
-- What Terminal_Putch does with each character.
use free_micro_nix.Base.{
  ℕ, ◌+◌, ◌-◌, ◌*◌, ◌/◌, ◌≤◌, ◌<◌, ◌≡◌, refl, inl, inr, Bool, false, ◌||◌, Option, none, some,
  arith, ltb, ◌==◌, if◌then◌else◌, Bool-cases,
}
use free_micro_nix.Kernel.Vga.{Terminal, glyph, put_glyph, terminal_backspace, terminal_putch}
use free_micro_nix.Kernel.Vga.Putch.{round_down}

-- The column that a tab goes to, and the one that a backspace goes to.
abbrev next_stop : ℕ → ℕ
next_stop column = (column / 8 + 1) * 8

abbrev pub one_back : ℕ → ℕ
one_back column = if ltb 0 column then column - 1 else 0

-- Where the character is written, by the number of the cell, and the row and the column behind it.
unfoldable pub place : ℕ → ℕ → ℕ → Option ℕ × ℕ × ℕ
place c row column =
    if c == b'\n' || column == 80
    then (none, row + 1, 0)
    else if c == b'\t'
    then (some (row * 80 + next_stop column), row, next_stop column + 1)
    else if c == 8
    then (some (row * 80 + one_back column), row, one_back column + 1)
    else if c == b'\r'
    then (some column, 0, column + 1)
    else (some (row * 80 + column), row, column + 1)

abbrev pub is_at : Option ℕ → ℕ → Bool
is_at none i = false
is_at (some j) i = i == j

-- The character in the terminal's colour at its place, and every other cell as it was.
pub record IsPut (c : ℕ) (t u : Terminal) : Type 0 where
  pub row : u.row ≡ (place c t.row t.column).1
  pub column : u.column ≡ (place c t.row t.column).2
  pub color : u.color ≡ t.color
  pub cell :
      (i : ℕ)
      → u.cell i ≡ (if is_at (place c t.row t.column).0 i then glyph t.color c else t.cell i)

-- On the screen, with the column up to 80, every character goes to its place: a newline, and whatever
-- comes at column 80, is not shown and goes to the start of the next row; a tab is shown at the next
-- multiple of 8, behind the row's end if it comes in the last eight columns; a backspace is shown in the
-- cell before the cursor, or in the first column at the cursor; a carriage return is shown in the top
-- row, in the cursor's column; any other character is shown at the cursor. The cursor then is one column
-- behind what was shown, the colour stays, and no other cell changes.
pub terminal_putch-IsPut :
    (c : ℕ) (t : Terminal) → t.column ≤ 80 → t.row < 25 → IsPut c t (terminal_putch c t)
unfolding terminal_putch terminal_backspace put_glyph place
terminal_putch-IsPut c t fits on = elim (Bool-cases (c == b'\n' || t.column == 80)) [
  | inl line ↦
      rw line (record {
        row = ground arith;
        column = ground arith;
        color = refl;
        cell = λ i. ground arith;
      })
  | inr inner ↦ rw inner (elim (Bool-cases (c == b'\t')) [
    | inl tab ↦
        let stop = round_down (t.column + 8) (ground arith) in
        rw tab (record {
          row = ground (arith, stop);
          column = ground (arith, stop);
          color = ground (arith, stop);
          cell = λ i. ground (arith, stop);
        })
    | inr no_tab ↦ rw no_tab (elim (Bool-cases (c == 8)) [
      | inl back ↦ rw back (record {
        row = ground (arith);
        column = ground (arith);
        color = ground (arith);
        cell = λ i. ground (arith);
      })
      | inr no_back ↦ rw no_back (elim (Bool-cases (c == b'\r')) [
        | inl return ↦ rw return (record {
          row = ground (arith);
          column = ground (arith);
          color = ground (arith);
          cell = λ i. ground (arith);
        })
        | inr plain ↦ rw plain (record {
          row = ground (arith);
          column = ground (arith);
          color = ground (arith);
          cell = λ i. ground (arith);
        })
      ])
    ])
  ])
]
