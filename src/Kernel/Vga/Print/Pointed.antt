-- ===== src/Kernel/Vga/Print/Pointed.antt =====
-- Where the cursor of the video hardware is after printing.
use free_micro_nix.Base.{
  ℕ, ◌+◌, ◌*◌, ◌%◌, ◌^◌, ◌≡◌, refl, Bool, true, false, not, List, [], ◌∷◌, ◌==◌, if◌then◌else◌,
}
use free_micro_nix.Kernel.Vga.Cursor.{cursor, terminal_update_cursor-cursor}
use free_micro_nix.Kernel.Vga.Print.{Console, cursor_on}
use free_micro_nix.Kernel.Vga.Print.Formatted.{Setting, Typed}

-- The cursor of the hardware is at the terminal's place.
abbrev pub Points : Console → Type 0
Points u = cursor u.log ≡ (u.terminal.row * 80 + u.terminal.column) % 2 ^ 16

pub cursor_on-Points : (s : Console) → Points (cursor_on s)
cursor_on-Points s = terminal_update_cursor-cursor s.terminal s.log

-- The format does not end in the middle of a conversion.
unfoldable pub is_whole : List ℕ → Bool
is_whole [] = true
is_whole (c ∷ []) = not (c == b'%')
is_whole (c ∷ d ∷ format) =
    let skipped = is_whole format in
    let next = is_whole (d ∷ format) in if c == b'%' then skipped else next

pub is_whole-plain :
    (c : ℕ) (format : List ℕ) → (c == b'%') ≡ false → is_whole (c ∷ format) ≡ is_whole format
unfolding is_whole
is_whole-plain c [] plain = rw plain refl
is_whole-plain c (d ∷ format) plain = rw plain refl

pub is_whole-percent :
    (c d : ℕ) (format : List ℕ) → (c == b'%') ≡ true → is_whole (c ∷ d ∷ format) ≡ is_whole format
unfolding is_whole
is_whole-percent c d format percent = rw percent refl

pub is_whole-cut : (c : ℕ) → (c == b'%') ≡ true → is_whole (c ∷ []) ≡ false
unfolding is_whole
is_whole-cut c percent = rw percent refl

-- What kprintf is to do: the text is typed, and behind a whole format the cursor is put at its end.
abbrev pub TypedThrough : Setting → List ℕ → List ℕ → Console → Console → Type 0
TypedThrough e format cs s u = Typed e cs s u × (is_whole format ≡ true → Points u)
