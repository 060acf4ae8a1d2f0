-- ===== src/Libc/Number/Reverse/Backwards.antt =====
-- strreverse on texts as lists.
use free_micro_nix.Base.{
  ℕ, ◌+◌, ◌-◌, ◌<◌, ◌≡◌, refl, ap, ◌∙◌, some, List, [], ◌∷◌, arith, length, length-append, Returns,
  Returns-mono,
}
use mathlib.Core.List.{reverse, reverse-cons}
use free_micro_nix.Mem.{Mem, CString, SameOutside}
use free_micro_nix.Mem.Chars.{Chars, Chars-append, Chars-CString, CString-Chars}
use free_micro_nix.Libc.Number.Reverse.{strreverse}
use free_micro_nix.Libc.Number.Reverse.Mirror.{strreverse-Mirrored}

pub length-reverse : (cs : List ℕ) → length (reverse cs) ≡ length cs
length-reverse [] = refl
length-reverse (c ∷ cs) =
    rw (reverse-cons c cs) (omega (arith, length-append (reverse cs) (c ∷ []), length-reverse cs))

pub Chars-reverse :
    (cs : List ℕ) (m g : Mem) (p q : ℕ)
    → Chars m p cs
    → ((i : ℕ) → i < length cs → g (q + i) ≡ m (p + (length cs - 1 - i)))
    → Chars g q (reverse cs)
Chars-reverse [] m g p q here same = tt
Chars-reverse (c ∷ cs) m g p q (here, low, high, rest) same =
    let front =
      Chars-reverse cs m g (p + 1) q rest λ i lt. same i (omega arith) ∙ ap m (omega arith) in
    let last : g (q + length (reverse cs)) ≡ some c =
      ap (λ n. g (q + n)) (length-reverse cs)
      ∙ same (length cs) (omega arith)
      ∙ ap m (omega arith)
      ∙ here in
    rw (reverse-cons c cs) (Chars-append (reverse cs) (c ∷ []) g q front (last, low, high, tt))

-- `strreverse` of a string, as a list: the string that stands there afterwards is the reversed one.
pub strreverse-reverse :
    (cs : List ℕ) (f : ℕ) (m : Mem) (str : ℕ)
    → CString m str cs
    → length cs < f
    → 0 < str
    → Returns
        (λ (g, r). (r ≡ str) × CString g str (reverse cs) × SameOutside str (length cs) m g)
        (strreverse f m str)
strreverse-reverse cs f m str text lt low =
    Returns-mono (strreverse-Mirrored cs f m str text lt low) λ (g, r) (same, turned, outside).
      let (front, end) = CString-Chars cs m str text in
      (
        same,
        Chars-CString (reverse cs) g str (Chars-reverse cs m g str str front turned)
            (rw (length-reverse cs) (outside (str + length cs) (omega arith) ∙ end)),
        outside,
      )
