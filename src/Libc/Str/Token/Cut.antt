-- ===== src/Libc/Str/Token/Cut.antt =====
-- A word cut off a text, and what is left to split.
use free_micro_nix.Base.{
  ℕ, zero, suc, ◌+◌, ◌≤◌, ◌<◌, ◌≡◌, refl, sym, ap, ◌∙◌, ◌≢◌, ◌⊎◌, inl, not, List, [], ◌∷◌, arith,
  length, set,
}
use native.Mathlib.Nat.{add-zero}
use mathlib.Core.Path.{subst}
use free_micro_nix.Mem.{Mem, write, CString, SameOutside}
use free_micro_nix.Mem.Laws.{write_self, write_ne}
use free_micro_nix.Mem.Strings.{CString-same, CString-write}
use free_micro_nix.Libc.Str.Text.{member}
use free_micro_nix.Libc.Str.Token.Next.{drop, prefix_length-le, length-drop, CString-drop}
use free_micro_nix.Libc.Str.Token.Words.{
  words, take, length-take, skipped, taken, words-nothing, nothing-left, words-next, words-last,
}

-- The strings at these addresses.
pub data Stand (m : Mem) : List ℕ → List (List ℕ) → Type 0 where
  none_left : Stand m [] []
  one_more :
      {p : ℕ} {ps : List ℕ} {cs : List ℕ} {rest : List (List ℕ)}
      → CString m p cs
      → Stand m ps rest
      → Stand m (p ∷ ps) (cs ∷ rest)

-- A NUL in place of a byte ends the text there.
CString-cut :
    (n : ℕ) (cs : List ℕ) (m : Mem) (p : ℕ)
    → CString m p cs
    → n < length cs
    → CString (write m (p + n) 0) p (take n cs)
unfolding take
CString-cut n [] m p str lt = absurd (omega arith)
CString-cut zero (c ∷ cs) m p str lt = rw add-zero (write_self m p 0)
CString-cut (suc n) (c ∷ cs) m p (here, lc, uc, rest) lt =
    let shift : p + suc n ≡ p + 1 + n = omega arith in
    (
      write_ne m (p + suc n) 0 p (omega arith) ∙ here,
      lc,
      uc,
      subst (λ q. CString (write m q 0) (p + 1) (take n cs)) (sym shift)
          (CString-cut n cs m (p + 1) rest (omega arith)),
    )

-- A text and a set to split it by, apart from each other, with fuel for both.
pub record IsSplittable (set cs : List ℕ) (f : ℕ) (m : Mem) (start delim : ℕ) : Type 0 where
  pub delimiters : CString m delim set
  pub text : CString m start cs
  pub apart : (delim + length set < start) ⊎ (start + length cs < delim)
  pub fuel : (length set < f) × (length cs < f)
  pub addresses : (0 < delim) × (0 < start)

-- The text at `start` split: the strings at the results, and nothing else changed.
pub record Split (set cs : List ℕ) (m : Mem) (start : ℕ) (r : Mem × List ℕ) : Type 0 where
  pub stand : Stand r.0 r.1 (words set cs)
  pub outside : SameOutside start (length cs) m r.0

-- The first word of a text is cut off, and the rest is split.
pub Split-cut :
    (set cs : List ℕ) (m : Mem) (start : ℕ) (r : Mem × List ℕ)
    → CString m start cs
    → taken set cs ≢ 0
    → skipped set cs + taken set cs < length cs
    → let word = start + skipped set cs in
      Split set
        (drop (suc (taken set cs)) (drop (skipped set cs) cs))
        (write m (word + taken set cs) 0)
        (word + taken set cs + 1)
        r
      → Split set cs m start (r.0, word ∷ r.1)
unfolding skipped taken
Split-cut set cs m start r tc some_taken more split =
    let k = skipped set cs in
    let j = taken set cs in
    let text = drop k cs in
    let fits = prefix_length-le (λ c. member c set) cs in
    let shorter = length-drop k cs fits in
    let shorter' = length-drop (suc j) text (omega (arith, shorter)) in
    let size = length-take j text (omega (arith, shorter)) in
    let cut =
      CString-cut j text m (start + k) (CString-drop k cs m start tc fits)
        (omega (arith, shorter)) in
    record {
      stand = rw (words-next set cs some_taken) (
          one_more
            (CString-same (take j text) (write m (start + k + j) 0) r.0 (start + k) cut
              λ a low high. split.outside a (inl (omega (arith, size))))
            split.stand);
      outside = λ a out.
          split.outside a (omega (arith, shorter, shorter'))
          ∙ write_ne m (start + k + j) 0 a (omega arith);
    }

pub Split-none :
    (set cs : List ℕ) (m : Mem) (start : ℕ) → taken set cs ≡ 0 → Split set cs m start (m, [])
Split-none set cs m start none_taken = record {
  stand = rw (words-nothing set cs none_taken) none_left;
  outside = λ a out. refl;
}

pub Split-last :
    (set cs : List ℕ) (m : Mem) (start : ℕ)
    → CString m start cs
    → taken set cs ≢ 0
    → skipped set cs + taken set cs ≡ length cs
    → Split set cs m start (m, (start + skipped set cs) ∷ [])
unfolding skipped
Split-last set cs m start tc some_taken all =
    let tail =
      CString-drop (skipped set cs) cs m start tc (prefix_length-le (λ c. member c set) cs) in
    record {
      stand = rw (words-last set cs some_taken all) (one_more tail none_left);
      outside = λ a out. refl;
    }

pub IsSplittable-cut :
    (set cs : List ℕ) (f : ℕ) (m : Mem) (start delim : ℕ)
    → IsSplittable set cs f m start delim
    → skipped set cs + taken set cs < length cs
    → let word = start + skipped set cs in
      IsSplittable set
        (drop (suc (taken set cs)) (drop (skipped set cs) cs))
        f
        (write m (word + taken set cs) 0)
        (word + taken set cs + 1)
        delim
unfolding skipped taken
IsSplittable-cut set cs f m start delim can more =
    let k = skipped set cs in
    let j = taken set cs in
    let text = drop k cs in
    let fits = prefix_length-le (λ c. member c set) cs in
    let shorter = length-drop k cs fits in
    let shorter' = length-drop (suc j) text (omega (arith, shorter)) in
    let behind : start + k + suc j ≡ start + k + j + 1 = omega arith in
    let tail = CString-drop k cs m start can.text fits in
    let rest =
      rw behind at (CString-drop (suc j) text m (start + k) tail (omega (arith, shorter))) in
    record {
      delimiters =
          CString-write set m delim (start + k + j) 0 can.delimiters (omega (arith, can.apart));
      text =
          CString-write (drop (suc j) text) m (start + k + j + 1) (start + k + j) 0 rest
            (inl (omega arith));
      apart = omega (arith, can.apart, shorter, shorter');
      fuel = (can.fuel.0, omega (arith, can.fuel.1, shorter, shorter'));
      addresses = (can.addresses.0, omega arith);
    }

-- How many bytes a word and those in front of it have.
pub taken-le : (set cs : List ℕ) → skipped set cs + taken set cs ≤ length cs
unfolding skipped taken
taken-le set cs =
    let k = skipped set cs in
    omega (
      arith,
      prefix_length-le (λ c. not (member c set)) (drop k cs),
      length-drop k cs (prefix_length-le (λ c. member c set) cs),
    )

pub rest-shorter :
    (set cs : List ℕ)
    → skipped set cs + taken set cs < length cs
    → length (drop (suc (taken set cs)) (drop (skipped set cs) cs)) < length cs
unfolding skipped taken
rest-shorter set cs more =
    let text = drop (skipped set cs) cs in
    let shorter = length-drop (skipped set cs) cs (prefix_length-le (λ c. member c set) cs) in
    omega (arith, shorter, length-drop (suc (taken set cs)) text (omega (arith, shorter)))

-- Where the text has a byte behind those of the set, it has a word.
pub taken-some : (set cs : List ℕ) → skipped set cs ≢ length cs → taken set cs ≢ 0
unfolding skipped taken
taken-some set cs more none_taken =
    let shorter = length-drop (skipped set cs) cs (prefix_length-le (λ c. member c set) cs) in
    let left : length (drop (skipped set cs) cs) ≡ 0 = ap length (nothing-left set cs none_taken) in
    more (omega (arith, shorter, left))
