-- ===== src/Libc/Str/Scan/Laws.antt =====
-- strlen, lfind and strchr against texts.
use free_micro_nix.Base.{
  ℕ, zero, suc, ◌+◌, ◌-◌, ◌%◌, ◌<◌, ◌≡◌, ap, ◌∙◌, Option, none, some, List, [], ◌∷◌, ◌++◌, arith,
  length, ok,
}
use native.Mathlib.Nat.{add_assoc, add-zero}
use free_micro_nix.Mem.{Mem, CString}
use free_micro_nix.Mem.Laws.{load-ok}
use free_micro_nix.Libc.Str.Text.{position}
use free_micro_nix.Libc.Str.Scan.{strlen_loop, strlen, lfind_loop, lfind, strchr}

strlen_loop-length :
    (cs : List ℕ) (f : ℕ) (m : Mem) (s i : ℕ)
    → CString m (s + i) cs
    → length cs < f
    → strlen_loop f m s i ≡ ok (i + length cs)
unfolding strlen_loop
strlen_loop-length cs zero m s i str lt = absurd (omega arith)
strlen_loop-length [] (suc f) m s i str lt = rw (load-ok m (s + i) str) (ap ok (omega arith))
strlen_loop-length (c ∷ cs) (suc f) m s i (here, low, high, rest) lt =
    ground
      (arith, load-ok m (s + i) here, strlen_loop-length cs f m s (i + 1) (rw add_assoc at rest))

-- On a string, with more fuel than it has characters, `strlen` ends in bounds with their number.
pub strlen-length :
    (cs : List ℕ) (f : ℕ) (m : Mem) (s : ℕ)
    → CString m s cs
    → length cs < f
    → strlen f m s ≡ ok (length cs)
unfolding strlen
strlen-length cs f m s str lt =
    strlen_loop-length cs f m s 0 (rw add-zero str) lt ∙ ap ok (omega arith)

-- A position in a text that starts at `s` as a pointer.
unfoldable pub pointer : ℕ → Option ℕ → ℕ
pointer s none = 0
pointer s (some i) = s + i

-- On a string, with more fuel than it has characters, `strchr` ends in bounds and points at the
-- first byte that equals `c` cut to a byte, the terminator counting as one, and is null if there
-- is none.
pub strchr-position :
    (cs : List ℕ) (f : ℕ) (m : Mem) (s c : ℕ)
    → CString m s cs
    → length cs < f
    → strchr f m s c ≡ ok (pointer s (position (c % 256) (cs ++ 0 ∷ [])))
unfolding strchr position pointer
strchr-position cs zero m s c str lt = absurd (omega arith)
strchr-position [] (suc f) m s c str lt = rw (load-ok m s str) (ground arith)
strchr-position (x ∷ cs) (suc f) m s c (here, low, high, rest) lt =
    rw (load-ok m s here) (ground (arith, strchr-position cs f m (s + 1) c rest))

lfind_loop-position :
    (cs : List ℕ) (f : ℕ) (m : Mem) (s c i : ℕ) {at : ℕ}
    → CString m (s + i) cs
    → length cs < f
    → position c (cs ++ 0 ∷ []) ≡ some at
    → lfind_loop f m s c i ≡ ok (i + at)
unfolding lfind_loop position
lfind_loop-position cs zero m s c i str lt found = absurd (omega arith)
lfind_loop-position [] (suc f) m s c i str lt found = ground (arith, load-ok m (s + i) str)
lfind_loop-position (x ∷ cs) (suc f) m s c i {at} (here, low, high, rest) lt found = ground (
  arith,
  load-ok m (s + i) here,
  lfind_loop-position cs f m s c (i + 1) {at = at - 1} (rw add_assoc at rest),
)

-- Where the byte stands in a string, its terminator included, and with more fuel than the string
-- has characters, `lfind` ends in bounds with the address of the first such byte.
pub lfind-position :
    (cs : List ℕ) (f : ℕ) (m : Mem) (s c : ℕ) {at : ℕ}
    → CString m s cs
    → length cs < f
    → position c (cs ++ 0 ∷ []) ≡ some at
    → lfind f m s c ≡ ok (s + at)
unfolding lfind
lfind-position cs f m s c str lt found =
    rw (lfind_loop-position cs f m s c 0 (rw add-zero str) lt found) (ap ok (omega arith))
