-- ===== src/Libc/Str/Copy/Laws.antt =====
-- strcpy and strcat against texts.
use free_micro_nix.Base.{
  ℕ, zero, suc, ◌+◌, ◌≤◌, ◌<◌, ◌≡◌, refl, ◌∙◌, ◌⊎◌, false, List, [], ◌∷◌, ◌++◌, arith, ◌==◌, length,
  length-append, Returns, Returns-bind, Returns-mono, ok,
}
use native.Mathlib.Nat.{add-zero}
use free_micro_nix.Mem.{Mem, write, IsObject, CString}
use free_micro_nix.Mem.Laws.{load-ok, store-ok, IsObject-write, write_ne, write_self}
use free_micro_nix.Mem.Chars.{Ended}
use free_micro_nix.Mem.Strings.{CString-write, CString-append}
use free_micro_nix.Libc.Str.Copy.{copy_string, strcpy, end_of, strcat}

-- The string `cs` stands at `dest` in `g`, which differs from `m` at most at its bytes and its
-- terminator.
abbrev pub Placed : Mem → ℕ → List ℕ → Mem → Type 0
Placed = Ended

copy_string-Placed :
    (cs : List ℕ) (f : ℕ) (m : Mem) (dest src : ℕ)
    → CString m src cs
    → length cs < f
    → (dest ≤ src) ⊎ (src + length cs < dest)
    → IsObject m dest (suc (length cs))
    → Returns (Placed m dest cs) (copy_string f m dest src)
unfolding copy_string
copy_string-Placed cs zero m dest src str lt apart obj = absurd (omega arith)
copy_string-Placed [] (suc f) m dest src str lt apart obj =
    rw (load-ok m src str, store-ok m dest 0 (rw add-zero at (obj 0 (omega arith))))
      (
        write m dest 0,
        refl,
        record { text = write_self m dest 0; outside = λ a out. write_ne m dest 0 a (omega arith) },
      )
copy_string-Placed (c ∷ cs) (suc f) m dest src (here, low, high, rest) lt apart obj =
    let more : (c == 0) ≡ false = ground arith in
    let g = write m dest c in
    let later = CString-write cs m (src + 1) dest c rest (omega arith) in
    let room : IsObject g (dest + 1) (suc (length cs)) =
      IsObject-write m dest c (dest + 1) (suc (length cs)) (λ i l. ground (arith, obj (suc i))) in
    rw (load-ok m src here) (
      rw (store-ok m dest c (rw add-zero at (obj 0 (omega arith)))) (
        rw more (
          Returns-mono
            (copy_string-Placed cs f g (dest + 1) (src + 1) later (omega arith) (omega arith) room)
            λ h p. record {
              text = (p.outside dest (omega arith) ∙ write_self m dest c, low, high, p.text);
              outside = λ a out. p.outside a (omega arith) ∙ write_ne m dest c a (omega arith);
            })))

-- `strcpy` of a string, with more fuel than it has characters, into an object with room for it
-- that does not start within the string behind its first byte, ends in bounds, returns `dest`,
-- leaves the string there, and changes no byte outside the copy.
pub strcpy-Placed :
    (cs : List ℕ) (f : ℕ) (m : Mem) (dest src : ℕ)
    → CString m src cs
    → length cs < f
    → (dest ≤ src) ⊎ (src + length cs < dest)
    → IsObject m dest (suc (length cs))
    → Returns (λ (g, r). (r ≡ dest) × Placed m dest cs g) (strcpy f m dest src)
unfolding strcpy
strcpy-Placed cs f m dest src str lt apart obj =
    Returns-bind (copy_string-Placed cs f m dest src str lt apart obj)
      λ g p. ((g, dest), refl, (refl, p))

end_of-length :
    (ds : List ℕ) (f : ℕ) (m : Mem) (dest : ℕ)
    → CString m dest ds
    → length ds < f
    → end_of f m dest ≡ ok (dest + length ds)
unfolding end_of
end_of-length ds zero m dest str lt = absurd (omega arith)
end_of-length [] (suc f) m dest str lt = ground (arith, load-ok m dest str)
end_of-length (d ∷ ds) (suc f) m dest (here, low, high, rest) lt =
    ground (arith, load-ok m dest here, end_of-length ds f m (dest + 1) rest)

-- `strcat` of two strings that do not overlap, with room behind the first and more fuel than either
-- has characters, ends in bounds, returns `dest`, leaves the concatenation there, and changes no
-- byte outside it.
pub strcat-append :
    (ds cs : List ℕ) (f : ℕ) (m : Mem) (dest src : ℕ)
    → CString m dest ds
    → CString m src cs
    → length ds < f
    → length cs < f
    → (dest + length ds + length cs < src) ⊎ (src + length cs < dest)
    → IsObject m dest (suc (length ds + length cs))
    → Returns (λ (g, r). (r ≡ dest) × Placed m dest (ds ++ cs) g) (strcat f m dest src)
unfolding strcat
strcat-append ds cs f m dest src front str lt lt' apart obj =
    rw (end_of-length ds f m dest front lt) (
      Returns-bind
        (copy_string-Placed cs f m (dest + length ds) src str lt' (omega arith)
          (λ i l. ground (arith, obj (length ds + i))))
        λ g p. (
          (g, dest),
          refl,
          (
            refl,
            record {
              text =
                  CString-append ds cs m g dest front (λ a l h. p.outside a (omega arith)) p.text;
              outside = λ a out. p.outside a (omega (arith, length-append ds cs));
            },
          ),
        ))
