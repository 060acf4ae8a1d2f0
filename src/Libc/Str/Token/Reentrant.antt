-- ===== src/Libc/Str/Token/Reentrant.antt =====
-- A text split by calls of strtok_r.
use free_micro_nix.Base.{
  ℕ, zero, suc, ◌+◌, ◌<◌, ◌≡◌, refl, ap, ◌∙◌, ◌≢◌, inl, inr, false, some, List, [], ◌∷◌, arith,
  ◌==◌, if◌then◌else◌, Bool-cases, length, set, Run, ◌>>=◌, Returns, Returns-bind, ok, timeout,
}
use free_micro_nix.Mem.Chars.{CString-Chars}
use free_micro_nix.Mem.{Mem, write, CString}
use free_micro_nix.Libc.Str.Text.{prefix_length}
use free_micro_nix.Libc.Str.Token.{strtok_r}
use free_micro_nix.Libc.Str.Token.Next.{drop}
use free_micro_nix.Libc.Str.Token.Saved.{saved_token, strtok_r-saved_token}
use free_micro_nix.Libc.Str.Token.Words.{skipped, taken}
use free_micro_nix.Libc.Str.Token.Cut.{
  IsSplittable, IsSplittable-cut, Split, Split-none, Split-last, Split-cut, taken-le, rest-shorter,
  taken-some,
}

-- As `strtok_all`, with the value of `*saveptr` for `saved`.
unfoldable pub strtok_r_all : ℕ → ℕ → Mem → ℕ → ℕ → ℕ → Run (Mem × List ℕ)
strtok_r_all zero f m str delim saved = timeout
strtok_r_all (suc rounds) f m str delim saved = do
  (m, saved, token) ← strtok_r f m str delim saved
  let more = do (m, tokens) ← strtok_r_all rounds f m 0 delim saved; ok (m, token ∷ tokens)
  if token == 0 then ok (m, []) else more

-- On an empty text no word is left.
strtok_r_all-end :
    (rounds : ℕ) (set : List ℕ) (f : ℕ) (m : Mem) (delim start : ℕ)
    → CString m delim set
    → m start ≡ some 0
    → length set < f
    → 0 < delim
    → 0 < start
    → 0 < rounds
    → strtok_r_all rounds f m 0 delim start ≡ ok (m, [])
unfolding strtok_r_all saved_token prefix_length
strtok_r_all-end zero set f m delim start ts here ls ld low enough = absurd (omega arith)
strtok_r_all-end (suc rounds) set f m delim start ts here ls ld low enough =
    rw (strtok_r-saved_token set [] f m 0 delim start start refl ts here ls (omega arith) ld low)
      refl

-- strtok_r, called on a text and then with the null pointer until it returns that, gives the words of the
-- text just as strtok does: after less calls than the text's length and two, the results are the
-- addresses of strings that are, in order, the non-empty parts of the text between the bytes of the set,
-- and no byte outside the text is changed. This is for a text and a set that do not overlap, neither at
-- the null address, and more fuel than either has characters; the text may be a new one or the saved one.
pub strtok_r_all-words :
    (rounds : ℕ) (set cs : List ℕ) (f : ℕ) (m : Mem) (str delim saved start : ℕ)
    → (if str == 0 then saved else str) ≡ start
    → IsSplittable set cs f m start delim
    → length cs < rounds
    → Returns (Split set cs m start) (strtok_r_all rounds f m str delim saved)
unfolding strtok_r_all saved_token skipped taken
strtok_r_all-words zero set cs f m str delim saved start from can enough = absurd (omega arith)
strtok_r_all-words (suc rounds) set cs f m str delim saved start from can enough =
    let k = skipped set cs in
    let j = taken set cs in
    let word = start + k in
    let present : (word == 0) ≡ false = ground (arith, can.addresses.1) in
    let le = taken-le set cs in
    rw
      (strtok_r-saved_token set cs f m str delim saved start from can.delimiters can.text can.fuel.0
        can.fuel.1 can.addresses.0 can.addresses.1)
      (elim (Bool-cases (k == length cs)) [
        | inl nothing ↦ rw nothing (_, refl, Split-none set cs m start (ground arith))
        | inr some_left ↦
            let present_word : j ≢ 0 = taken-some set cs (ground arith) in
            rw some_left (elim (Bool-cases (k + j == length cs)) [
              | inl last ↦
                  let nul : m (word + j) ≡ some 0 =
                    ap m (ground arith) ∙ (CString-Chars cs m start can.text).1 in
                  rw last (
                    rw present (
                      rw
                        (strtok_r_all-end rounds set f m delim (word + j) can.delimiters nul
                          can.fuel.0 can.addresses.0 (ground (arith, can.addresses.1))
                          (ground arith))
                        (_, refl, Split-last set cs m start can.text present_word (ground arith))))
              | inr more ↦
                  let inside : k + j < length cs = ground arith in
                  let rest = drop (suc j) (drop k cs) in
                  let cut = IsSplittable-cut set cs f m start delim can inside in
                  rw more (
                    rw present (
                      Returns-bind
                        (strtok_r_all-words rounds set rest f (write m (word + j) 0) 0 delim
                          (word + j + 1) (word + j + 1) refl cut
                          (omega (arith, rest-shorter set cs inside)))
                        λ r s.
                          (_, refl, Split-cut set cs m start r can.text present_word inside s)))
            ])
      ])
