-- ===== src/Kernel/Vga/Putch.antt =====
-- Terminal_Putch, one character at a time.
use free_micro_nix.Base.{
  ℕ, ◌+◌, ◌-◌, ◌*◌, ◌/◌, ◌^◌, ◌≤◌, ◌<◌, bit_and, ◌≡◌, refl, ◌≢◌, arith, ltb, ◌==◌, if◌then◌else◌,
  u32,
}
use free_micro_nix.Base.Bits.{bit_and_mask, bit_and_digit}
use free_micro_nix.Kernel.Vga.{Terminal, glyph, put_glyph, terminal_backspace, terminal_putch}
use free_micro_nix.Kernel.Vga.Scroll.{terminal_scroll_lem}

-- Terminal_Backspace as vga.c writes it, with Terminal_Putch itself for the blank.
pub terminal_backspace_lem :
    (t : Terminal)
    → terminal_backspace t ≡ (
        if ltb 0 t.column
        then (let blanked = terminal_putch b' ' (record t { column = t.column - 1 }) in
            record blanked { column = u32 (blanked.column + 2 ^ 32 - 1) })
        else t)
unfolding terminal_backspace terminal_putch
terminal_backspace_lem t = refl

-- A character that moves the cursor in no way of its own.
abbrev pub IsPlain : ℕ → Type 0
IsPlain c = (c ≢ b'\n') × (c ≢ b'\t') × (c ≢ 8) × (c ≢ b'\r')

-- On the screen a plain character is written in the current colour at the cursor's cell and at no
-- other, and the cursor goes one column on.
pub terminal_putch_plain :
    (c : ℕ) (t : Terminal)
    → IsPlain c
    → t.column < 80
    → t.row < 25
    → ((terminal_putch c t).row ≡ t.row)
      × ((terminal_putch c t).column ≡ t.column + 1)
      × ((terminal_putch c t).color ≡ t.color)
      × ((i : ℕ)
          → (terminal_putch c t).cell i
            ≡ (if i == t.row * 80 + t.column then glyph t.color c else t.cell i))
unfolding terminal_putch put_glyph
terminal_putch_plain c t plain fits on =
    (ground arith, ground arith, ground arith, λ i. ground arith)

-- At column 80 the character is not shown: whatever it is, it acts as a newline.
pub terminal_putch_wrap :
    (c : ℕ) (t : Terminal) → t.column ≡ 80 → terminal_putch c t ≡ terminal_putch b'\n' t
unfolding terminal_putch
terminal_putch_wrap c t at_edge = ground arith

-- A newline goes to the start of the next row and shows nothing.
pub terminal_putch_newline :
    (t : Terminal)
    → t.row < 2 ^ 32 - 1
    → terminal_putch b'\n' t ≡ record t { column = 0; row = t.row + 1 }
unfolding terminal_putch
terminal_putch_newline t h = ground arith

-- `x & ~7` for a 32-bit `x`.
pub round_down : (x : ℕ) → x < 2 ^ 32 → bit_and x 0xFFFF_FFF8 ≡ x / 8 * 8
round_down x h = ground (
  arith,
  bit_and_digit x 0xFFFF_FFF8,
  bit_and_digit (x / 2) 0x7FFF_FFFC,
  bit_and_digit (x / 2 / 2) 0x3FFF_FFFE,
  bit_and_mask 29 (x / 2 / 2 / 2),
)

-- With the cursor below the screen, in a column of the screen and in a row less than 2^24, a
-- plain character leaves the row as it is, and each of the 2000 cells of the screen receives what
-- stood a row below it.
pub terminal_putch_below :
    (c : ℕ) (t : Terminal)
    → IsPlain c
    → t.column < 80
    → 25 ≤ t.row
    → t.row < 2 ^ 24
    → ((terminal_putch c t).row ≡ t.row)
      × ((i : ℕ) → i < 2000 → (terminal_putch c t).cell i ≡ t.cell (i + 80))
unfolding terminal_putch put_glyph
terminal_putch_below c t plain fits below small =
    let (shown, behind, row, column) = terminal_scroll_lem t in
    (ground (arith, row), λ i h. ground (arith, row, column, shown i))
