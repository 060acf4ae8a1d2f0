-- ===== src/Kernel/Vga/Clear.antt =====
-- Terminal_Clear, which writes its blanks through Terminal_Putch.
use free_micro_nix.Base.{
  ℕ, zero, suc, ◌+◌, ◌*◌, ◌/◌, ◌%◌, ◌≤◌, ◌<◌, ◌≡◌, refl, ◌∙◌, inl, inr, arith, ltb, if◌then◌else◌,
  Bool-cases,
}
use native.Mathlib.Nat.{add-zero}
use free_micro_nix.Kernel.Vga.{
  Terminal, glyph, clear_row, clear_rows, terminal_clear, terminal_putch,
}
use free_micro_nix.Kernel.Vga.Putch.{
  terminal_putch_plain, terminal_putch_wrap, terminal_putch_newline,
}

-- `s` is `t` after `n` blanks from the origin. Each row takes 81 of them: the last one is the
-- newline that the edge makes of it.
record Cleared (t : Terminal) (n : ℕ) (s : Terminal) : Type 0 where
  row : s.row ≡ n / 81
  column : s.column ≡ n % 81
  color : s.color ≡ t.color
  cell :
      (i : ℕ) → s.cell i ≡ (if ltb (i / 80 * 81 + i % 80) n then glyph t.color b' ' else t.cell i)

Cleared-blank :
    (t : Terminal) (n : ℕ) (s : Terminal)
    → n < 2000
    → Cleared t n s
    → Cleared t (n + 1) (terminal_putch b' ' s)
Cleared-blank t n s h c = elim (Bool-cases (ltb (n % 81) 80)) [
  | inl inside ↦
      let (row, column, color, cell) =
        terminal_putch_plain b' ' s (omega arith) (ground (arith, c.column))
          (ground (arith, c.row)) in
      record {
        row = ground (arith, row, c.row);
        column = ground (arith, column, c.column);
        color = color ∙ c.color;
        cell = λ i. ground (arith, cell i, c.cell i, c.row, c.column, c.color);
      }
  | inr edge ↦
      let e =
        terminal_putch_wrap b' ' s (ground (arith, c.column))
        ∙ terminal_putch_newline s (ground (arith, c.row)) in
      rw e (record {
        row = ground (arith, c.row);
        column = ground arith;
        color = c.color;
        cell = λ i. ground (arith, c.cell i);
      })
]

clear_row-Cleared :
    (left n : ℕ) (t s : Terminal)
    → n + left ≤ 2000
    → Cleared t n s
    → Cleared t (n + left) (clear_row left s)
unfolding clear_row
clear_row-Cleared zero n t s h c = rw add-zero c
clear_row-Cleared (suc left) n t s h c =
    let rest =
      clear_row-Cleared left (n + 1) t (terminal_putch b' ' s) (omega arith)
        (Cleared-blank t n s (omega arith) c) in
    let e : n + 1 + left ≡ n + suc left = omega arith in rw e at rest

clear_rows-Cleared :
    (left n : ℕ) (t s : Terminal)
    → n + left * 80 ≤ 2000
    → Cleared t n s
    → Cleared t (n + left * 80) (clear_rows left s)
unfolding clear_rows
clear_rows-Cleared zero n t s h c = let e : n + 0 * 80 ≡ n = omega arith in rw e c
clear_rows-Cleared (suc left) n t s h c =
    let rest =
      clear_rows-Cleared left (n + 80) t (clear_row 80 s) (omega arith)
        (clear_row-Cleared 80 n t s (omega arith) c) in
    let e : n + 80 + left * 80 ≡ n + suc left * 80 = omega arith in rw e at rest

-- `Terminal_Clear` leaves the cursor at the origin and blanks the first 1976 cells only: the last 24
-- cells of the screen, and all behind it, are as before.
terminal_clear_lem :
    (t : Terminal)
    → ((terminal_clear t).row ≡ 0)
      × ((terminal_clear t).column ≡ 0)
      × ((i : ℕ) → i < 1976 → (terminal_clear t).cell i ≡ glyph t.color b' ')
      × ((i : ℕ) → 1976 ≤ i → (terminal_clear t).cell i ≡ t.cell i)
unfolding terminal_clear
terminal_clear_lem t =
    let c =
      clear_rows-Cleared 25 0 t (record t { row = 0; column = 0 }) (omega arith)
        (record { row = refl; column = refl; color = refl; cell = λ i. ground arith }) in
    (refl, refl, λ i h. ground (arith, c.cell i), λ i h. ground (arith, c.cell i))
