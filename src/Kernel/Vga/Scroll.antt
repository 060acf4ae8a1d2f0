-- ===== src/Kernel/Vga/Scroll.antt =====
-- Terminal_Scroll and Initialize_Terminal, cell by cell.
use free_micro_nix.Base.{
  ℕ, zero, suc, ◌+◌, ◌*◌, ◌≤◌, ◌<◌, ◌≡◌, refl, ◌∙◌, ◌&&◌, arith, ltb, leb, if◌then◌else◌,
}
use free_micro_nix.Kernel.Vga.{
  update, scroll_row, blank_rows, initialize_terminal, blank_row, scroll_rows, Terminal,
  terminal_scroll, terminal_putat, glyph, terminal_set_color,
}

scroll_row_cells :
    (left y x : ℕ) (cell : ℕ → ℕ) (i : ℕ)
    → scroll_row left y x cell i
      ≡ (if leb (y * 80 + x) i && ltb i (y * 80 + x + left) then cell (i + 80) else cell i)
unfolding scroll_row
scroll_row_cells zero y x cell i = ground arith
scroll_row_cells (suc left) y x cell i =
    ground (
      arith,
      scroll_row_cells left y (x + 1) (update cell (y * 80 + x) (cell ((y + 1) * 80 + x))) i,
    )

scroll_rows_cells :
    (left y : ℕ) (cell : ℕ → ℕ) (i : ℕ)
    → scroll_rows left y cell i
      ≡ (if leb (y * 80) i && ltb i ((y + left) * 80) then cell (i + 80) else cell i)
unfolding scroll_rows
scroll_rows_cells zero y cell i = ground arith
scroll_rows_cells (suc left) y cell i = ground (
  arith,
  scroll_rows_cells left (y + 1) (scroll_row 80 y 0 cell) i,
  scroll_row_cells 80 y 0 cell i,
  scroll_row_cells 80 y 0 cell (i + 80),
)

-- `s` has the cells `[lo, hi)` of `t` blank in the colour of `t`, and is `t` otherwise.
pub record Blanked (t : Terminal) (lo hi : ℕ) (s : Terminal) : Type 0 where
  pub row : s.row ≡ t.row
  pub column : s.column ≡ t.column
  pub color : s.color ≡ t.color
  pub cell : (i : ℕ) → s.cell i ≡ (if leb lo i && ltb i hi then glyph t.color b' ' else t.cell i)

blank_row-Blanked :
    (left y x : ℕ) (t : Terminal)
    → x + left ≤ 80
    → y < 25
    → Blanked t (y * 80 + x) (y * 80 + x + left) (blank_row left y x t)
unfolding blank_row terminal_putat
blank_row-Blanked zero y x t h k = record {
  row = refl;
  column = refl;
  color = refl;
  cell = λ i. ground arith;
}
blank_row-Blanked (suc left) y x t h k =
    let rest = blank_row-Blanked left y (x + 1) (terminal_putat x y b' ' t) (omega arith) k in
    record {
      row = rest.row;
      column = rest.column;
      color = rest.color;
      cell = λ i. ground (arith, rest.cell i);
    }

blank_rows-Blanked :
    (left y : ℕ) (t : Terminal)
    → y + left ≤ 25
    → Blanked t (y * 80) ((y + left) * 80) (blank_rows left y t)
unfolding blank_rows
blank_rows-Blanked zero y t h = record {
  row = refl;
  column = refl;
  color = refl;
  cell = λ i. ground arith;
}
blank_rows-Blanked (suc left) y t h =
    let first = blank_row-Blanked 80 y 0 t (omega arith) (omega arith) in
    let rest = blank_rows-Blanked left (y + 1) (blank_row 80 y 0 t) (omega arith) in
    record {
      row = rest.row ∙ first.row;
      column = rest.column ∙ first.column;
      color = rest.color ∙ first.color;
      cell = λ i. ground (arith, rest.cell i, first.cell i, rest.color, first.color);
    }

-- `Terminal_Scroll` moves each of the 2000 cells of the screen up by a row; its last row receives
-- the row behind the screen. Neither the cursor nor any other cell changes.
pub terminal_scroll_lem :
    (t : Terminal)
    → ((i : ℕ) → i < 2000 → (terminal_scroll t).cell i ≡ t.cell (i + 80))
      × ((i : ℕ) → 2000 ≤ i → (terminal_scroll t).cell i ≡ t.cell i)
      × ((terminal_scroll t).row ≡ t.row)
      × ((terminal_scroll t).column ≡ t.column)
unfolding terminal_scroll
terminal_scroll_lem t = (
  λ i h. ground (arith, scroll_rows_cells 25 0 t.cell i),
  λ i h. ground (arith, scroll_rows_cells 25 0 t.cell i),
  refl,
  refl,
)

-- `Initialize_Terminal` puts the cursor at the origin, sets light grey on black, blanks the 2000
-- cells of the screen in that colour and changes no other.
pub initialize_terminal_lem :
    (t : Terminal)
    → ((initialize_terminal t).row ≡ 0)
      × ((initialize_terminal t).column ≡ 0)
      × ((initialize_terminal t).color ≡ 7)
      × ((i : ℕ) → i < 2000 → (initialize_terminal t).cell i ≡ 0x0720)
      × ((i : ℕ) → 2000 ≤ i → (initialize_terminal t).cell i ≡ t.cell i)
unfolding initialize_terminal terminal_set_color glyph
initialize_terminal_lem t =
    let b =
      blank_rows-Blanked 25 0 (terminal_set_color 7 (record t { row = 0; column = 0 }))
        (omega arith) in
    (b.row, b.column, b.color, λ i h. ground (arith, b.cell i), λ i h. ground (arith, b.cell i))
