-- ===== src/Kernel/Vga/Print/Extent.antt =====
-- How far a text may reach on the terminal.
use free_micro_nix.Base.{
  ℕ, ◌+◌, ◌-◌, ◌*◌, ◌^◌, ◌≤◌, ◌<◌, ◌≡◌, refl, ◌∙◌, ◌≢◌, ◌⊎◌, inl, inr, Bool, true, false, not, ◌&&◌,
  ◌||◌, List, [], ◌∷◌, arith, ltb, leb, ◌==◌, Bool-cases, length,
}
use free_micro_nix.Kernel.Vga.{
  Terminal, terminal_scroll, terminal_putat, put_glyph, putch_with, terminal_backspace,
  terminal_putch,
}
use free_micro_nix.Kernel.Vga.Scroll.{terminal_scroll_lem}
use free_micro_nix.Kernel.Vga.Typing.{place, is_at, one_back}
use free_micro_nix.Kernel.Vga.Print.Formatted.{typed}

-- The row and the column behind a text.
unfoldable pub cursor : List ℕ → ℕ → ℕ → ℕ × ℕ
cursor [] row column = (row, column)
cursor (c ∷ cs) row column = cursor cs (place c row column).1 (place c row column).2

-- No character of the text has its place at this cell, and none comes while the cursor is below the
-- screen, where most scroll it, unless the cell is behind the screen.
unfoldable pub spares : ℕ → List ℕ → ℕ → ℕ → Bool
spares i [] row column = true
spares i (c ∷ cs) row column =
    not (is_at (place c row column).0 i)
    && (ltb row 25 || leb 2000 i)
    && spares i cs (place c row column).1 (place c row column).2

-- The text leads from `t` to `u`: the cursor, the colour and the cells that it spares.
pub record Extends (cs : List ℕ) (t u : Terminal) : Type 0 where
  pub row : u.row ≡ (cursor cs t.row t.column).0
  pub column : u.column ≡ (cursor cs t.row t.column).1
  pub lowest : u.row ≤ t.row + length cs
  pub inside : u.column ≤ 80
  pub color : u.color ≡ t.color
  pub cell : (i : ℕ) → spares i cs t.row t.column ≡ true → u.cell i ≡ t.cell i

-- A character that is written at the cursor.
record Puts (t u : Terminal) : Type 0 where
  row : u.row ≡ t.row
  column : u.column ≡ t.column + 1
  color : u.color ≡ t.color
  cell : (i : ℕ) → i ≢ t.row * 80 + t.column → t.row < 25 ⊎ 2000 ≤ i → u.cell i ≡ t.cell i

put_glyph-color : (c : ℕ) (t : Terminal) → (put_glyph c t).color ≡ t.color
unfolding put_glyph terminal_putat terminal_scroll
put_glyph-color c t = ground arith

put_glyph-Puts : (c : ℕ) (t : Terminal) → t.column < 80 → t.row < 2 ^ 24 → Puts t (put_glyph c t)
unfolding put_glyph terminal_putat
put_glyph-Puts c t fits low =
    let s = terminal_scroll_lem t in
    record {
      row = ground (arith, s.2);
      column = ground (arith, s.3);
      color = put_glyph-color c t;
      cell = λ i off far. ground (arith, s.1 i, s.2, s.3);
    }

-- A character other than a tab, in any row: as `place` has it.
record Moves (c : ℕ) (t u : Terminal) : Type 0 where
  row : u.row ≡ (place c t.row t.column).1
  column : u.column ≡ (place c t.row t.column).2
  color : u.color ≡ t.color
  cell :
      (i : ℕ)
      → is_at (place c t.row t.column).0 i ≡ false
      → t.row < 25 ⊎ 2000 ≤ i
      → u.cell i ≡ t.cell i

-- A blank in the cell before the cursor.
record Blanks (t u : Terminal) : Type 0 where
  row : u.row ≡ t.row
  column : u.column ≡ one_back t.column
  color : u.color ≡ t.color
  cell : (i : ℕ) → i ≢ t.row * 80 + one_back t.column → t.row < 25 ⊎ 2000 ≤ i → u.cell i ≡ t.cell i

backspace-Blanks : (t : Terminal) → t.column < 80 → t.row < 2 ^ 24 → Blanks t (terminal_backspace t)
unfolding terminal_backspace putch_with
backspace-Blanks t fits low =
    let before : Terminal = record t { column = t.column - 1 } in
    let a = put_glyph-Puts b' ' before (omega arith) low in
    elim (Bool-cases (ltb 0 t.column)) [
      | inl inside ↦
          let not_edge : (t.column - 1 == 80) ≡ false = ground arith in
          rw inside (
            rw not_edge (record {
              row = a.row;
              column = ground (arith, a.column);
              color = a.color;
              cell = λ i off far. ground (arith, a.cell i);
            }))
      | inr first ↦
          rw first
            (record { row = refl; column = ground arith; color = refl; cell = λ i off far. refl })
    ]

terminal_putch-Moves :
    (c : ℕ) (t : Terminal)
    → c ≢ b'\t'
    → t.column ≤ 80
    → t.row < 2 ^ 24
    → Moves c t (terminal_putch c t)
unfolding terminal_putch putch_with place
terminal_putch-Moves c t no_tab fits low = elim (Bool-cases (c == b'\n' || t.column == 80)) [
  | inl line ↦
      rw line (record {
        row = ground arith;
        column = ground arith;
        color = refl;
        cell = λ i off far. refl;
      })
  | inr on ↦
      let inner : t.column < 80 = ground arith in
      let tab : (c == b'\t') ≡ false = ground arith in
      rw on (
        rw tab (elim (Bool-cases (c == 8)) [
          | inl back ↦
              let a = backspace-Blanks t inner low in
              let b =
                put_glyph-Puts c (terminal_backspace t) (ground (arith, a.column))
                  (omega (arith, a.row)) in
              rw back (record {
                row = ground (arith, b.row, a.row);
                column = ground (arith, b.column, a.column);
                color = b.color ∙ a.color;
                cell = λ i off far. ground (arith, b.cell i, a.cell i, a.row, a.column);
              })
          | inr forward ↦ rw forward (elim (Bool-cases (c == b'\r')) [
            | inl return ↦
                let r = put_glyph-Puts c (record t { row = 0 }) inner (omega arith) in
                rw return (record {
                  row = ground (arith, r.row);
                  column = ground (arith, r.column);
                  color = r.color;
                  cell = λ i off far. ground (arith, r.cell i);
                })
            | inr plain ↦
                let r = put_glyph-Puts c t inner low in
                rw plain (record {
                  row = ground (arith, r.row);
                  column = ground (arith, r.column);
                  color = r.color;
                  cell = λ i off far. ground (arith, r.cell i);
                })
          ])
        ]))
]

place-bounds :
    (c row column : ℕ)
    → c ≢ b'\t'
    → column ≤ 80
    → ((place c row column).1 ≤ row + 1) × ((place c row column).2 ≤ 80)
unfolding place
place-bounds c row column no_tab fits = ground arith

abbrev pub IsTabless : List ℕ → Type 0
IsTabless [] = Unit {0}
IsTabless (c ∷ cs) = (c ≢ b'\t') × IsTabless cs

-- Whatever text without tabs is typed, from a column within the 80 and with fewer than 2^24 rows, on the
-- screen or below it: the cursor goes from place to place as its characters say, one row down at most
-- for each and within the 80 columns; the colour stays; and a cell stays as it was if no character has
-- its place there and, for a cell on the screen, none comes while the cursor is below the screen.
pub typed-Extends :
    (cs : List ℕ) (t : Terminal)
    → IsTabless cs
    → t.column ≤ 80
    → t.row + length cs < 2 ^ 24
    → Extends cs t (typed cs t)
unfolding typed cursor spares
typed-Extends [] t tabless fits low = record {
  row = refl;
  column = refl;
  lowest = omega arith;
  inside = fits;
  color = refl;
  cell = λ i spared. refl;
}
typed-Extends (c ∷ cs) t (no_tab, tabless) fits low =
    let a = terminal_putch-Moves c t no_tab fits (omega arith) in
    let (down, within) = place-bounds c t.row t.column no_tab fits in
    let b =
      typed-Extends cs (terminal_putch c t) tabless (omega (arith, a.column))
        (omega (arith, a.row)) in
    record {
      row = ground (arith, b.row, a.row, a.column);
      column = ground (arith, b.column, a.row, a.column);
      lowest = omega (arith, b.lowest, a.row);
      inside = b.inside;
      color = b.color ∙ a.color;
      cell = λ i spared. ground (arith, b.cell i, a.cell i, a.row, a.column);
    }
