-- ===== src/Libc/Str/Find/Laws.antt =====
-- strstr against texts.
use free_micro_nix.Base.{ℕ, zero, suc, ◌+◌, ◌<◌, ◌≡◌, List, [], ◌∷◌, arith, length, ok}
use free_micro_nix.Mem.{Mem, CString}
use free_micro_nix.Mem.Laws.{load-ok}
use free_micro_nix.Libc.Str.Text.{occurrence}
use free_micro_nix.Libc.Str.Scan.Laws.{pointer, strlen-length}
use free_micro_nix.Libc.Str.Compare.Laws.{memcmp-is_prefix}
use free_micro_nix.Libc.Str.Find.{strstr_loop, strstr}

strstr_loop-occurrence :
    (pat cs : List ℕ) (f : ℕ) (m : Mem) (s1 s2 : ℕ)
    → CString m s1 cs
    → CString m s2 pat
    → length cs < f
    → strstr_loop f m s1 s2 (length pat) ≡ ok (pointer s1 (occurrence pat cs))
unfolding strstr_loop occurrence pointer
strstr_loop-occurrence pat cs zero m s1 s2 str tp lt = absurd (omega arith)
strstr_loop-occurrence pat [] (suc f) m s1 s2 str tp lt = ground (arith, load-ok m s1 str)
strstr_loop-occurrence pat (c ∷ cs) (suc f) m s1 s2 (here, low, high, rest) tp lt =
    let (d, got, test) = memcmp-is_prefix pat (c ∷ cs) m s1 s2 (here, low, high, rest) tp in
    ground
      (arith, load-ok m s1 here, got, test, strstr_loop-occurrence pat cs f m (s1 + 1) s2 rest tp)

-- On two strings, with more fuel than either has characters, `strstr` ends in bounds with the
-- address of the first place in the first string at which the second stands, its end not counted
-- as a place, and with the null pointer if there is none.
pub strstr-occurrence :
    (pat cs : List ℕ) (f : ℕ) (m : Mem) (s1 s2 : ℕ)
    → CString m s1 cs
    → CString m s2 pat
    → length cs < f
    → length pat < f
    → strstr f m s1 s2 ≡ ok (pointer s1 (occurrence pat cs))
unfolding strstr
strstr-occurrence pat cs f m s1 s2 str tp lt lt' =
    rw (strlen-length pat f m s2 tp lt') (strstr_loop-occurrence pat cs f m s1 s2 str tp lt)
