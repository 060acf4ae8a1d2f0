-- ===== src/Kernel/Vga/Color.antt =====
-- What a word of the text buffer shows.
use free_micro_nix.Base.{
  ℕ, ◌+◌, ◌-◌, ◌*◌, ◌/◌, ◌%◌, ◌^◌, ◌≤◌, ◌<◌, ◌≡◌, refl, ◌∙◌, Bool, true, Option, some, [], ◌∷◌,
  arith, leb, ◌==◌, get_elem?, int_of_char,
}
use free_micro_nix.Base.Bits.{bit_or_low, bit_or_shifted, bit_or_ones}
use free_micro_nix.Kernel.Vga.{
  VgaColor, black, blue, green, cyan, red, magenta, brown, light_grey, dark_grey, light_blue,
  light_green, light_cyan, light_red, light_magenta, light_brown, white, color_code, make_color,
  glyph,
}

-- The colour with this code.
unfoldable pub color_of : ℕ → Option VgaColor
color_of n =
    get_elem?
      (black ∷ blue ∷ green ∷ cyan ∷ red ∷ magenta ∷ brown ∷ light_grey ∷ dark_grey ∷ light_blue
        ∷ light_green ∷ light_cyan ∷ light_red ∷ light_magenta ∷ light_brown ∷ white ∷ [])
      n

-- How the adapter reads a word in text mode, as it starts: the low byte is the character, the four bits
-- above it are the colour in front, the next three the colour behind, and with the last the character
-- blinks.
unfoldable pub decode : ℕ → ℕ × Option VgaColor × Option VgaColor × Bool
unfolding color_of
decode word =
    (word % 256, color_of (word / 256 % 16), color_of (word / 4096 % 8), word / 32768 % 2 == 1)

color_of-color_code : (color : VgaColor) → color_of (color_code color) ≡ some color
unfolding color_of
color_of-color_code black = refl
color_of-color_code blue = refl
color_of-color_code green = refl
color_of-color_code cyan = refl
color_of-color_code red = refl
color_of-color_code magenta = refl
color_of-color_code brown = refl
color_of-color_code light_grey = refl
color_of-color_code dark_grey = refl
color_of-color_code light_blue = refl
color_of-color_code light_green = refl
color_of-color_code light_cyan = refl
color_of-color_code light_red = refl
color_of-color_code light_magenta = refl
color_of-color_code light_brown = refl
color_of-color_code white = refl

color_code-lt : (color : VgaColor) → color_code color < 16
color_code-lt black = omega arith
color_code-lt blue = omega arith
color_code-lt green = omega arith
color_code-lt cyan = omega arith
color_code-lt red = omega arith
color_code-lt magenta = omega arith
color_code-lt brown = omega arith
color_code-lt light_grey = omega arith
color_code-lt dark_grey = omega arith
color_code-lt light_blue = omega arith
color_code-lt light_green = omega arith
color_code-lt light_cyan = omega arith
color_code-lt light_red = omega arith
color_code-lt light_magenta = omega arith
color_code-lt light_brown = omega arith
color_code-lt white = omega arith

make_color-sum :
    (fg bg : VgaColor)
    → make_color (color_code fg) (color_code bg) ≡ color_code bg * 16 + color_code fg
unfolding make_color
make_color-sum fg bg = ground (
  arith,
  bit_or_low 4 (color_code bg) (color_code fg) (color_code-lt fg),
  color_code-lt fg,
  color_code-lt bg,
)

pub glyph-ascii : (color c : ℕ) → color < 256 → c < 128 → glyph color c ≡ color * 256 + c
unfolding glyph
glyph-ascii color c low ascii = ground (arith, bit_or_low 8 color c (omega arith))

glyph-extended : (color c : ℕ) → color < 256 → 128 ≤ c → c < 256 → glyph color c ≡ 0xFF00 + c
unfolding glyph
glyph-extended color c low extended byte =
    let signed : int_of_char c ≡ (2 ^ 24 - 1) * 2 ^ 8 + c = ground arith in
    rw signed (ground (arith, bit_or_shifted 8 (2 ^ 24 - 1) color c, bit_or_ones 24 color))

pub decode-fields :
    (word c front behind : ℕ)
    → word ≡ behind * 4096 + front * 256 + c
    → c < 256
    → front < 16
    → decode word ≡ (c, color_of front, color_of (behind % 8), behind / 8 % 2 == 1)
unfolding decode
decode-fields word c front behind fields byte low =
    let in_front : word / 256 % 16 ≡ front = omega arith in
    let at_back : word / 4096 % 8 ≡ behind % 8 = omega arith in
    let at_end : word / 32768 % 2 ≡ behind / 8 % 2 = omega arith in
    let character : word % 256 ≡ c = omega arith in
    rw in_front (rw at_back (rw at_end (rw character refl)))

-- A character of ASCII is shown by the adapter in the first colour that make_color was given; behind it
-- is the second if that is one of the first eight; otherwise there is the one eight before it, and the
-- character blinks. One with the eighth bit set, which `char` makes negative, is shown in white on light grey,
-- blinking, whatever the colours.
pub glyph-decode :
    (fg bg : VgaColor) (c : ℕ)
    → c < 256
    → let word = glyph (make_color (color_code fg) (color_code bg)) c in
      (c < 128 → decode word ≡ (c, some fg, color_of (color_code bg % 8), leb 8 (color_code bg)))
      × (128 ≤ c → decode word ≡ (c, some white, some light_grey, true))
glyph-decode fg bg c byte =
    let color = make_color (color_code fg) (color_code bg) in
    let sum = make_color-sum fg bg in
    let front = color_code-lt fg in
    let behind = color_code-lt bg in
    let blinks : (color_code bg / 8 % 2 == 1) ≡ leb 8 (color_code bg) = ground (arith, behind) in
    (
      λ ascii.
          decode-fields (glyph color c) c (color_code fg) (color_code bg)
            (omega (arith, glyph-ascii color c (omega (arith, sum, front, behind)) ascii, sum)) byte
            front
          ∙ rw (color_of-color_code fg) (rw blinks refl),
      λ extended.
          decode-fields (glyph color c) c 15 15
            (omega
              (arith, glyph-extended color c (omega (arith, sum, front, behind)) extended byte))
            byte (omega arith)
          ∙ rw (color_of-color_code white) (rw (color_of-color_code light_grey) refl),
    )
