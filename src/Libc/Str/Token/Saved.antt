-- ===== src/Libc/Str/Token/Saved.antt =====
-- Which token strtok_r finds.
use free_micro_nix.Base.{
  ℕ, ◌+◌, ◌<◌, ◌≡◌, refl, ◌∙◌, inl, inr, not, some, List, [], ◌∷◌, ◌++◌, arith, ltb, ◌==◌,
  if◌then◌else◌, Bool-cases, length, set, ok,
}
use free_micro_nix.Mem.{Mem, write, CString}
use free_micro_nix.Mem.Laws.{load-ok, store-ok}
use free_micro_nix.Libc.Str.Text.{member, prefix_length, position}
use free_micro_nix.Libc.Str.Scan.Laws.{lfind-position}
use free_micro_nix.Libc.Str.Span.Laws.{strspn-prefix_length, strpbrk-first_in, first_in}
use free_micro_nix.Libc.Str.Token.{strtok_r}
use free_micro_nix.Libc.Str.Token.Next.{drop, prefix_length-le, length-drop, CString-drop, head_of}

-- As `next_token`, for strtok_r: it saves the address behind the text where the text ends with the token,
-- or before one.
unfoldable pub saved_token : List ℕ → List ℕ → Mem → ℕ → Mem × ℕ × ℕ
saved_token set cs m start =
    let skipped = prefix_length (λ c. member c set) cs in
    let token = start + skipped in
    let size = prefix_length (λ c. not (member c set)) (drop skipped cs) in
    if skipped == length cs
    then (m, token, 0)
    else if skipped + size == length cs
    then (m, token + size, token)
    else (write m (token + size) 0, token + size + 1, token)

position-length :
    (cs : List ℕ) (m : Mem) (p : ℕ) → CString m p cs → position 0 (cs ++ 0 ∷ []) ≡ some (length cs)
unfolding position
position-length [] m p here = refl
position-length (c ∷ cs) m p (here, lc, uc, rest) =
    ground (arith, position-length cs m (p + 1) rest)

-- `strtok_r` on a text, a new one or the one that it saved, neither the text nor the set at the null
-- address, with more fuel than either has characters, ends in bounds and gives the next token of the
-- text.
pub strtok_r-saved_token :
    (set cs : List ℕ) (f : ℕ) (m : Mem) (str delim saved start : ℕ)
    → (if str == 0 then saved else str) ≡ start
    → CString m delim set
    → CString m start cs
    → length set < f
    → length cs < f
    → 0 < delim
    → 0 < start
    → strtok_r f m str delim saved ≡ ok (saved_token set cs m start)
unfolding strtok_r saved_token first_in
strtok_r-saved_token set cs f m str delim saved start from ts tc ls lc ld low =
    let k = prefix_length (λ c. member c set) cs in
    let fits = prefix_length-le (λ c. member c set) cs in
    let tail = CString-drop k cs m start tc fits in
    let shorter = length-drop k cs fits in
    let j = prefix_length (λ c. not (member c set)) (drop k cs) in
    let fits' = prefix_length-le (λ c. not (member c set)) (drop k cs) in
    let (d, at_token, over) = head_of (drop k cs) m (start + k) tail in
    let (c, here, ends) =
      head_of (drop j (drop k cs)) m (start + k + j)
        (CString-drop j (drop k cs) m (start + k) tail fits') in
    let first = strspn-prefix_length set cs f m start delim ts tc ls lc ld in
    let second = strpbrk-first_in set (drop k cs) f m (start + k) delim ts tail ls (omega arith) in
    let behind =
      lfind-position (drop k cs) f m (start + k) 0 tail (omega arith)
        (position-length (drop k cs) m (start + k) tail) in
    let none_left : (d == 0) ≡ (k == length cs) = over ∙ ground (arith, shorter) in
    let at_end : ((if ltb j (length (drop k cs)) then start + k + j else 0) == 0)
        ≡ (k + j == length cs) =
      ground (arith, shorter) in
    let stored = store-ok m (start + k + j) 0 (ground (arith, here)) in
    rw from (
      rw first (
        rw (load-ok m (start + k) at_token) (
          rw none_left (
            rw second (
              rw at_end (
                rw behind (elim (Bool-cases (k + j == length cs)) [
                  | inl last ↦ rw last (ground (arith, shorter))
                  | inr more ↦
                      let hit : first_in (start + k) set (drop k cs) ≡ start + k + j =
                        ground (arith, shorter) in
                      rw more (rw hit (rw stored (ground arith)))
                ])))))))
