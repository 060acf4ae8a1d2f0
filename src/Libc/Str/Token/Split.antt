-- ===== src/Libc/Str/Token/Split.antt =====
-- A text split by calls of strtok.
use free_micro_nix.Base.{
  ℕ, zero, suc, ◌+◌, ◌<◌, ◌≡◌, refl, ◌≢◌, inl, inr, false, List, [], ◌∷◌, arith, ◌==◌,
  if◌then◌else◌, Bool-cases, length, set, Run, ◌>>=◌, Returns, Returns-bind, ok, timeout,
}
use free_micro_nix.Mem.{Mem, write}
use free_micro_nix.Libc.Str.Token.{strtok}
use free_micro_nix.Libc.Str.Token.Next.{drop, next_token, strtok-next_token}
use free_micro_nix.Libc.Str.Token.Words.{skipped, taken}
use free_micro_nix.Libc.Str.Token.Cut.{
  IsSplittable, IsSplittable-cut, Split, Split-none, Split-last, Split-cut, taken-le, rest-shorter,
}

-- The use that strtok is made for: a first call with a text, further calls with the null pointer until a
-- result is null. `rounds` bounds the calls; `p` is what the variable of strtok holds.
unfoldable pub strtok_all : ℕ → ℕ → Mem → ℕ → ℕ → ℕ → Run (Mem × List ℕ)
strtok_all zero f m p str delim = timeout
strtok_all (suc rounds) f m p str delim = do
  (m, p, token) ← strtok f m p str delim
  let more = do (m, tokens) ← strtok_all rounds f m p 0 delim; ok (m, token ∷ tokens)
  if token == 0 then ok (m, []) else more

-- What is left when the text is used up.
strtok_all-end :
    (rounds f : ℕ) (m : Mem) (delim : ℕ) → 0 < rounds → strtok_all rounds f m 0 0 delim ≡ ok (m, [])
unfolding strtok_all strtok
strtok_all-end zero f m delim low = absurd (omega arith)
strtok_all-end (suc rounds) f m delim low = refl

-- strtok, called on a text and then with the null pointer until it returns that, gives the words of the
-- text one after the other: after less calls than the text's length and two, the results are the addresses
-- of strings that are, in order, the non-empty parts of the text between the bytes of the set. No byte
-- outside the text is changed. This is for a text and a set that do not overlap, neither at the null
-- address, and more fuel than either has characters; the text may be a new one or the one that strtok
-- saved.
pub strtok_all-words :
    (rounds : ℕ) (set cs : List ℕ) (f : ℕ) (m : Mem) (p str start delim : ℕ)
    → (if str == 0 then p else str) ≡ start
    → IsSplittable set cs f m start delim
    → length cs < rounds
    → Returns (Split set cs m start) (strtok_all rounds f m p str delim)
unfolding strtok_all next_token skipped taken
strtok_all-words zero set cs f m p str start delim from can enough = absurd (omega arith)
strtok_all-words (suc rounds) set cs f m p str start delim from can enough =
    let k = skipped set cs in
    let j = taken set cs in
    let word = start + k in
    let present : (word == 0) ≡ false = ground (arith, can.addresses.1) in
    let le = taken-le set cs in
    rw
      (strtok-next_token set cs f m p str start delim from can.delimiters can.text can.fuel.0
        can.fuel.1 can.addresses.0 can.addresses.1)
      (elim (Bool-cases (j == 0)) [
        | inl nothing ↦ rw nothing (_, refl, Split-none set cs m start (ground arith))
        | inr some_taken ↦
            let present_word : j ≢ 0 = ground arith in
            rw some_taken (elim (Bool-cases (k + j == length cs)) [
              | inl last ↦ rw last (
                  rw present (
                    rw (strtok_all-end rounds f m delim (ground arith))
                      (_, refl, Split-last set cs m start can.text present_word (ground arith))))
              | inr more ↦
                  let inside : k + j < length cs = ground arith in
                  let rest = drop (suc j) (drop k cs) in
                  let fewer : length rest < rounds = omega (arith, rest-shorter set cs inside) in
                  let cut = IsSplittable-cut set cs f m start delim can inside in
                  rw more (
                    rw present (
                      Returns-bind
                        (strtok_all-words rounds set rest f (write m (word + j) 0) (word + j + 1) 0
                          (word + j + 1) delim refl cut fewer)
                        λ r s.
                          (_, refl, Split-cut set cs m start r can.text present_word inside s)))
            ])
      ])
