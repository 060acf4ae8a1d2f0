-- ===== src/Kernel/Screen/Page.antt =====
-- The lines that a log leaves on the screen.
use free_micro_nix.Base.{
  ℕ, suc, ◌+◌, ◌≤◌, ◌<◌, ◌≡◌, refl, sym, ap, ◌∙◌, true, false, List, [], ◌∷◌, ◌++◌, arith, length,
  length-append,
}
use mathlib.Core.List.{append_assoc, append-nil}
use mathlib.Core.Path.{subst}
use Prim.Native.String.{String}
use free_micro_nix.Base.Bits.{bit_or-zero}
use free_micro_nix.Kernel.Port.{Log, printed, colored}
use free_micro_nix.Kernel.Vga.{Terminal, terminal_set_color}
use free_micro_nix.Kernel.Vga.Print.Formatted.{typed, typed-append, rendered}
use free_micro_nix.Kernel.Vga.Print.Literal.{bytes}
use free_micro_nix.Kernel.Screen.{display}
use free_micro_nix.Kernel.Screen.Lines.{Line, Shows, is_plain_text, typed-line}

-- Some lines, with a newline behind each.
unfoldable pub unlines : List (List ℕ) → List ℕ
unlines [] = []
unlines (cs ∷ rest) = cs ++ (b'\n' ∷ unlines rest)

-- The lines of one colour.
unfoldable pub colored_lines : ℕ → List (List ℕ) → List Line
colored_lines color [] = []
colored_lines color (cs ∷ rest) = (color, cs) ∷ colored_lines color rest

-- Each line fits into a row.
abbrev pub IsPage : List (List ℕ) → Type 0
IsPage [] = Unit {0}
IsPage (cs ∷ rest) = (is_plain_text cs ≡ true) × (length cs ≤ 80) × IsPage rest

typed-lines :
    (lines : List Line) (page : List (List ℕ)) (t : Terminal)
    → Shows lines t
    → IsPage page
    → length lines + length page ≤ 25
    → Shows (lines ++ colored_lines t.color page) (typed (unlines page) t)
      × ((typed (unlines page) t).color ≡ t.color)
unfolding typed unlines colored_lines
typed-lines lines [] t shows fits room = (rw append-nil shows, refl)
typed-lines lines (cs ∷ page) t shows (plain, narrow, fits) room =
    let u = typed (cs ++ b'\n' ∷ []) t in
    let (shown, same) = typed-line lines cs t shows plain narrow (omega arith) in
    let (rest, same') =
      typed-lines (lines ++ (t.color, cs) ∷ []) page u shown fits
        (omega (arith, length-append lines ((t.color, cs) ∷ []))) in
    let joined : typed (cs ++ (b'\n' ∷ unlines page)) t ≡ typed (unlines page) u =
      typed-append cs (b'\n' ∷ unlines page) t
      ∙ sym (ap (typed (unlines page)) (typed-append cs (b'\n' ∷ []) t)) in
    let listed =
      append_assoc lines ((t.color, cs) ∷ []) (colored_lines u.color page)
      ∙ ap (λ q. lines ++ ((t.color, cs) ∷ colored_lines q page)) same in
    rw joined (subst (λ ls. Shows ls (typed (unlines page) u)) listed rest, same' ∙ same)

-- The lines that a log is to show, in the colour that is set at its start.
pub data Prints (strings : ℕ → List ℕ) : ℕ → Log → List Line → Type 0 where
  finished : {color : ℕ} → Prints strings color [] []
  text :
      {color : ℕ} {format : String} {args : List ℕ} {log : Log} {rest : List Line}
      (page : List (List ℕ))
      → rendered strings false (bytes format) args ≡ unlines page
      → IsPage page
      → Prints strings color log rest
      → Prints strings color (printed format args ∷ log) (colored_lines color page ++ rest)
  recolor :
      {color : ℕ} {log : Log} {rest : List Line} (next : ℕ)
      → next < 16
      → Prints strings next log rest
      → Prints strings color (colored next ∷ log) rest

recolored : (next : ℕ) (t : Terminal) → next < 16 → (terminal_set_color next t).color ≡ next
unfolding terminal_set_color
recolored next t lt = ground (arith, bit_or-zero next)

length-colored_lines :
    (color : ℕ) (page : List (List ℕ)) → length (colored_lines color page) ≡ length page
unfolding colored_lines
length-colored_lines color [] = refl
length-colored_lines color (cs ∷ page) = ap suc (length-colored_lines color page)

recolored-Shows :
    (lines : List Line) (next : ℕ) (t : Terminal)
    → Shows lines t
    → Shows lines (terminal_set_color next t)
unfolding terminal_set_color
recolored-Shows lines next t shows = record {
  row = shows.row;
  column = shows.column;
  cell = shows.cell;
}

pub display-Shows :
    {strings : ℕ → List ℕ} {color : ℕ} {log : Log} {rest : List Line} (lines : List Line)
    (t : Terminal)
    → Prints strings color log rest
    → t.color ≡ color
    → Shows lines t
    → length lines + length rest ≤ 25
    → Shows (lines ++ rest) (display strings log t)
unfolding display
display-Shows lines t finished same shows room = rw append-nil shows
display-Shows {strings} {color} lines t (text {format} {args} {log} {rest} page shown fits prints)
      same shows room =
    let v = typed (unlines page) t in
    let size = length-append (colored_lines color page) rest in
    let (shown', color') =
      typed-lines lines page t shows fits (omega (arith, size, length-colored_lines color page)) in
    let on = subst (λ q. Shows (lines ++ colored_lines q page) v) same shown' in
    rw shown (
      subst (λ ls. Shows ls (display strings log v))
        (append_assoc lines (colored_lines color page) rest)
        (display-Shows (lines ++ colored_lines color page) v prints (color' ∙ same) on
          (omega (arith, size, length-append lines (colored_lines color page)))))
display-Shows {strings} {color} lines t (recolor {log} {rest} next low prints) same shows room =
    display-Shows lines (terminal_set_color next t) prints (recolored next t low)
      (recolored-Shows lines next t shows) room
