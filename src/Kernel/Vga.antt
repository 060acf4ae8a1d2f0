-- ===== src/Kernel/Vga.antt =====
-- kernel/x86/video/vga.c and kernel/include/x86/video/vga.h: the text terminal.
pub mod Color
pub mod Scroll
pub mod Clear
pub mod Putch
pub mod Print
pub mod Cursor
pub mod Typing
use free_micro_nix.Base.{
  ℕ, zero, suc, ◌+◌, ◌-◌, ◌*◌, ◌^◌, bit_and, bit_or, ◌||◌, ltb, leb, ◌==◌, if◌then◌else◌, u8, u16,
  u32, ◌<<◌, ◌>>◌, int_of_char,
}
use free_micro_nix.Kernel.Port.{Log, outb}

abbrev pub vga_width : ℕ
vga_width = 80

abbrev pub vga_height : ℕ
vga_height = 25

-- `enum vga_color`
pub data VgaColor : Type 0 where
  black : VgaColor
  blue : VgaColor
  green : VgaColor
  cyan : VgaColor
  red : VgaColor
  magenta : VgaColor
  brown : VgaColor
  light_grey : VgaColor
  dark_grey : VgaColor
  light_blue : VgaColor
  light_green : VgaColor
  light_cyan : VgaColor
  light_red : VgaColor
  light_magenta : VgaColor
  light_brown : VgaColor
  white : VgaColor

abbrev pub color_code : VgaColor → ℕ
color_code black = 0
color_code blue = 1
color_code green = 2
color_code cyan = 3
color_code red = 4
color_code magenta = 5
color_code brown = 6
color_code light_grey = 7
color_code dark_grey = 8
color_code light_blue = 9
color_code light_green = 10
color_code light_cyan = 11
color_code light_red = 12
color_code light_magenta = 13
color_code light_brown = 14
color_code white = 15

abbrev pub color_black : ℕ
color_black = color_code black

abbrev pub color_light_grey : ℕ
color_light_grey = color_code light_grey

-- The globals of vga.c. `cell i` is `terminal_buffer[i]`, a 16-bit word; the buffer is memory at
-- 0xB8000 and goes on behind the 2000 cells of the screen.
pub record Terminal : Type 0 where
  pub row : ℕ
  pub column : ℕ
  pub color : ℕ
  pub cell : ℕ → ℕ

abbrev pub update : (ℕ → ℕ) → ℕ → ℕ → ℕ → ℕ
update f i v j = if j == i then v else f j

-- The word for a `char` in a colour: `c | color16 << 8`.
unfoldable pub glyph : ℕ → ℕ → ℕ
glyph color c = u16 (bit_or (int_of_char c) (color << 8))

unfoldable pub terminal_putat : ℕ → ℕ → ℕ → Terminal → Terminal
terminal_putat x y c t = record t {
  cell = update t.cell (u32 (y * vga_width + x)) (glyph t.color c);
}

unfoldable pub make_color : ℕ → ℕ → ℕ
make_color fg bg = u8 (bit_or fg (bg << 4))

unfoldable pub terminal_set_color : ℕ → Terminal → Terminal
terminal_set_color color t = record t { color = u8 (bit_or color (color_black << 4)) }

-- The inner loops below have `left` rounds to go at column `x` of row `y`, the outer ones `left`
-- rows from row `y` on.
unfoldable pub blank_row : ℕ → ℕ → ℕ → Terminal → Terminal
blank_row zero y x t = t
blank_row (suc left) y x t = blank_row left y (x + 1) (terminal_putat x y b' ' t)

unfoldable pub blank_rows : ℕ → ℕ → Terminal → Terminal
blank_rows zero y t = t
blank_rows (suc left) y t = blank_rows left (y + 1) (blank_row vga_width y 0 t)

unfoldable pub initialize_terminal : Terminal → Terminal
initialize_terminal t =
    blank_rows vga_height 0 (terminal_set_color color_light_grey (record t { row = 0; column = 0 }))

unfoldable pub scroll_row : ℕ → ℕ → ℕ → (ℕ → ℕ) → ℕ → ℕ
scroll_row zero y x cell = cell
scroll_row (suc left) y x cell =
    scroll_row left y (x + 1) (update cell (y * vga_width + x) (cell ((y + 1) * vga_width + x)))

unfoldable pub scroll_rows : ℕ → ℕ → (ℕ → ℕ) → ℕ → ℕ
scroll_rows zero y cell = cell
scroll_rows (suc left) y cell = scroll_rows left (y + 1) (scroll_row vga_width y 0 cell)

unfoldable pub terminal_scroll : Terminal → Terminal
terminal_scroll t = record t { cell = scroll_rows vga_height 0 t.cell }

-- The end of Terminal_Putch: scroll if below the screen, write, go one column on.
unfoldable pub put_glyph : ℕ → Terminal → Terminal
unfolding terminal_putat
put_glyph c t =
    let s = if leb vga_height t.row then terminal_scroll t else t in
    let w = terminal_putat s.column s.row c s in record w { column = u32 (w.column + 1) }

-- Terminal_Putch with the backspace that it calls as an argument: Terminal_Backspace calls back
-- with a blank only, which calls no backspace.
unfoldable pub putch_with : (Terminal → Terminal) → ℕ → Terminal → Terminal
putch_with backspace c t =
    if c == b'\n' || t.column == vga_width
    then record t { column = 0; row = u32 (t.row + 1) }
    else put_glyph c (
        if c == b'\t'
        then record t { column = bit_and (u32 (t.column + 8)) 0xFFFF_FFF8 }
        else if c == 8
        then backspace t
        else if c == b'\r'
        then record t { row = 0 }
        else t)

unfoldable pub terminal_backspace : Terminal → Terminal
unfolding putch_with
terminal_backspace t =
    if ltb 0 t.column
    then (let blanked = putch_with (λ s. s) b' ' (record t { column = t.column - 1 }) in
        record blanked { column = u32 (blanked.column + 2 ^ 32 - 1) })
    else t

unfoldable pub terminal_putch : ℕ → Terminal → Terminal
unfolding putch_with
terminal_putch = putch_with terminal_backspace

unfoldable pub terminal_newline : Terminal → Terminal
terminal_newline = terminal_putch b'\n'

unfoldable pub clear_row : ℕ → Terminal → Terminal
clear_row zero t = t
clear_row (suc left) t = clear_row left (terminal_putch b' ' t)

unfoldable pub clear_rows : ℕ → Terminal → Terminal
clear_rows zero t = t
clear_rows (suc left) t = clear_rows left (clear_row vga_width t)

unfoldable pub terminal_clear : Terminal → Terminal
terminal_clear t = record (clear_rows vga_height (record t { row = 0; column = 0 })) {
  row = 0;
  column = 0;
}

unfoldable pub terminal_update_cursor : Terminal → Log → Log
terminal_update_cursor t log =
    let location = u32 (t.row * 80 + t.column) in
    outb 0x3D5 (u8 (bit_and (location >> 8) 0xFF))
      (outb 0x3D4 0x0E (outb 0x3D5 (u8 (bit_and location 0xFF)) (outb 0x3D4 0x0F log)))
