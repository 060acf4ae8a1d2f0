-- ===== src/Libc/Str/Token/Next.antt =====
-- Which token strtok finds.
use free_micro_nix.Base.{
  ℕ, zero, suc, ◌+◌, ◌≤◌, ◌<◌, ◌≡◌, refl, ◌∙◌, Bool, false, not, some, List, [], ◌∷◌, arith, ◌==◌,
  if◌then◌else◌, length, set, ok,
}
use native.Mathlib.Nat.{add-zero}
use free_micro_nix.Mem.{Mem, write, CString}
use free_micro_nix.Mem.Laws.{load-ok, store-ok}
use free_micro_nix.Libc.Str.Text.{member, prefix_length}
use free_micro_nix.Libc.Str.Span.Laws.{strspn-prefix_length, strcspn-prefix_length}
use free_micro_nix.Libc.Str.Token.{strtok}

-- The text without its first bytes.
unfoldable pub drop : ℕ → List ℕ → List ℕ
drop zero cs = cs
drop (suc n) [] = []
drop (suc n) (c ∷ cs) = drop n cs

pub prefix_length-le : (p : ℕ → Bool) (cs : List ℕ) → prefix_length p cs ≤ length cs
unfolding prefix_length
prefix_length-le p [] = omega arith
prefix_length-le p (c ∷ cs) = ground (arith, prefix_length-le p cs)

pub length-drop : (n : ℕ) (cs : List ℕ) → n ≤ length cs → length (drop n cs) + n ≡ length cs
unfolding drop
length-drop zero cs le = omega arith
length-drop (suc n) [] le = absurd (omega arith)
length-drop (suc n) (c ∷ cs) le = ground (arith, length-drop n cs)

pub CString-drop :
    (n : ℕ) (cs : List ℕ) (m : Mem) (p : ℕ)
    → CString m p cs
    → n ≤ length cs
    → CString m (p + n) (drop n cs)
unfolding drop
CString-drop zero cs m p str le = rw add-zero str
CString-drop (suc n) [] m p str le = absurd (omega arith)
CString-drop (suc n) (c ∷ cs) m p (here, lc, uc, rest) le =
    let shift : p + suc n ≡ p + 1 + n = omega arith in
    rw shift (CString-drop n cs m (p + 1) rest (omega arith))

-- What strtok is to do with the text `cs` at `start`: skip the bytes of the set, take those that are not
-- in it, and put a NUL behind the token unless the text ends there. No token is left where none is
-- taken.
unfoldable pub next_token : List ℕ → List ℕ → Mem → ℕ → Mem × ℕ × ℕ
next_token set cs m start =
    let skipped = prefix_length (λ c. member c set) cs in
    let token = start + skipped in
    let size = prefix_length (λ c. not (member c set)) (drop skipped cs) in
    if size == 0
    then (m, 0, 0)
    else if skipped + size == length cs
    then (m, 0, token)
    else (write m (token + size) 0, token + size + 1, token)

pub head_of :
    (cs : List ℕ) (m : Mem) (p : ℕ)
    → CString m p cs
    → (c : ℕ) × (m p ≡ some c) × ((c == 0) ≡ (length cs == 0))
head_of [] m p here = (0, here, refl)
head_of (c ∷ cs) m p (here, lc, uc, rest) = (c, here, ground arith)

-- `strtok` on a text, a new one or the one that it saved, neither the text nor the set at the null
-- address, with more fuel than either has characters, ends in bounds and gives the next token of the
-- text.
pub strtok-next_token :
    (set cs : List ℕ) (f : ℕ) (m : Mem) (p str start delim : ℕ)
    → (if str == 0 then p else str) ≡ start
    → CString m delim set
    → CString m start cs
    → length set < f
    → length cs < f
    → 0 < delim
    → 0 < start
    → strtok f m p str delim ≡ ok (next_token set cs m start)
unfolding strtok next_token
strtok-next_token set cs f m p str start delim from ts tc ls lc ld low =
    let k = prefix_length (λ c. member c set) cs in
    let fits = prefix_length-le (λ c. member c set) cs in
    let tail = CString-drop k cs m start tc fits in
    let shorter = length-drop k cs fits in
    let j = prefix_length (λ c. not (member c set)) (drop k cs) in
    let fits' = prefix_length-le (λ c. not (member c set)) (drop k cs) in
    let shorter' = length-drop j (drop k cs) fits' in
    let (c, here, ends) =
      head_of (drop j (drop k cs)) m (start + k + j)
        (CString-drop j (drop k cs) m (start + k) tail fits') in
    let first = strspn-prefix_length set cs f m start delim ts tc ls lc ld in
    let second =
      strcspn-prefix_length set (drop k cs) f m (start + k) delim ts tail ls (omega arith) ld in
    let on : (start == 0) ≡ false = ground arith in
    let none_taken : (start + k + j == start + k) ≡ (j == 0) = ground arith in
    let at_end : (c == 0) ≡ (k + j == length cs) = ends ∙ ground (arith, shorter, shorter') in
    let stored = store-ok m (start + k + j) 0 (ground (arith, here)) in
    rw from (
      rw on (
        rw first (
          rw second (
            rw none_taken
              (rw (load-ok m (start + k + j) here) (rw at_end (rw stored (ground arith))))))))
