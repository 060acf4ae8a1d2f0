-- ===== src/Libc/Str/Span/Laws.antt =====
-- strspn, strcspn and strpbrk against texts.
use free_micro_nix.Base.{
  ℕ, zero, suc, ◌+◌, ◌%◌, ◌<◌, ◌≡◌, refl, ap, ◌∙◌, ◌↔◌, inl, inr, false, not, none, List, [], ◌∷◌,
  ◌++◌, arith, ltb, ◌==◌, if◌then◌else◌, Bool-cases, length, set, ok, int_of_char,
}
use free_micro_nix.Mem.{Mem, load, CString}
use free_micro_nix.Mem.Laws.{load-ok}
use free_micro_nix.Libc.Str.Text.{position, member, prefix_length}
use free_micro_nix.Libc.Str.Scan.{strchr}
use free_micro_nix.Libc.Str.Scan.Laws.{pointer, strchr-position}
use free_micro_nix.Libc.Str.Span.{
  strspn_loop, strspn, strcspn_loop, strcspn, accept_loop, strpbrk_loop, strpbrk,
}

position-member :
    (c : ℕ) (xs : List ℕ) → 0 < c → (position c (xs ++ 0 ∷ []) ≡ none) ↔ (member c xs ≡ false)
unfolding position member
position-member c [] low = ground arith
position-member c (x ∷ xs) low = ground (arith, position-member c xs low)

-- Whether a byte of a string other than NUL is in the set that starts at `s2`.
strchr-member :
    (set : List ℕ) (k : ℕ) (m : Mem) (s2 c : ℕ)
    → CString m s2 set
    → length set < k
    → 0 < s2
    → 0 < c
    → c < 256
    → (r : ℕ) × (strchr k m s2 (int_of_char c) ≡ ok r) × ((r == 0) ≡ not (member c set))
unfolding pointer
strchr-member set k m s2 c str lt live low high =
    let e : int_of_char c % 256 ≡ c = ground arith in
    (
      _,
      strchr-position set k m s2 (int_of_char c) str lt,
      rw e (ground (arith, position-member c set low)),
    )

module _ (set : List ℕ) (k : ℕ) (m : Mem) (s2 : ℕ) (str2 : CString m s2 set) (fits : length set < k)
    (live : 0 < s2) where
  strspn_loop-prefix_length :
      (cs : List ℕ) (f s1 ret : ℕ)
      → CString m s1 cs
      → length cs < f
      → strspn_loop k m s2 f s1 ret ≡ ok (ret + prefix_length (λ c. member c set) cs)
  unfolding strspn_loop prefix_length
  strspn_loop-prefix_length cs zero s1 ret str lt = absurd (omega arith)
  strspn_loop-prefix_length [] (suc f) s1 ret str lt = ground (arith, load-ok m s1 str)
  strspn_loop-prefix_length (c ∷ cs) (suc f) s1 ret (here, low, high, rest) lt =
      let (r, got, test) = strchr-member set k m s2 c str2 fits live low high in
      ground (
        arith,
        load-ok m s1 here,
        got,
        test,
        strspn_loop-prefix_length cs f (s1 + 1) (ret + 1) rest,
      )

  strcspn_loop-prefix_length :
      (cs : List ℕ) (f s1 ret : ℕ)
      → CString m s1 cs
      → length cs < f
      → strcspn_loop k m s2 f s1 ret ≡ ok (ret + prefix_length (λ c. not (member c set)) cs)
  unfolding strcspn_loop prefix_length
  strcspn_loop-prefix_length cs zero s1 ret str lt = absurd (omega arith)
  strcspn_loop-prefix_length [] (suc f) s1 ret str lt = ground (arith, load-ok m s1 str)
  strcspn_loop-prefix_length (c ∷ cs) (suc f) s1 ret (here, low, high, rest) lt =
      let (r, got, test) = strchr-member set k m s2 c str2 fits live low high in
      ground (
        arith,
        load-ok m s1 here,
        got,
        test,
        strcspn_loop-prefix_length cs f (s1 + 1) (ret + 1) rest,
      )

-- On two strings, the second not at the null address, with more fuel than either has characters,
-- `strspn` ends in bounds with the length of the longest prefix of the first whose bytes are all in
-- the second.
pub strspn-prefix_length :
    (set cs : List ℕ) (f : ℕ) (m : Mem) (s1 s2 : ℕ)
    → CString m s2 set
    → CString m s1 cs
    → length set < f
    → length cs < f
    → 0 < s2
    → strspn f m s1 s2 ≡ ok (prefix_length (λ c. member c set) cs)
unfolding strspn
strspn-prefix_length set cs f m s1 s2 str2 str1 lt2 lt1 live =
    strspn_loop-prefix_length set f m s2 str2 lt2 live cs f s1 0 str1 lt1 ∙ ap ok (omega arith)

-- On two strings, the second not at the null address, with more fuel than either has characters,
-- `strcspn` ends in bounds with the length of the longest prefix of the first that has no byte of
-- the second.
pub strcspn-prefix_length :
    (set cs : List ℕ) (f : ℕ) (m : Mem) (s1 s2 : ℕ)
    → CString m s2 set
    → CString m s1 cs
    → length set < f
    → length cs < f
    → 0 < s2
    → strcspn f m s1 s2 ≡ ok (prefix_length (λ c. not (member c set)) cs)
unfolding strcspn
strcspn-prefix_length set cs f m s1 s2 str2 str1 lt2 lt1 live =
    strcspn_loop-prefix_length set f m s2 str2 lt2 live cs f s1 0 str1 lt1 ∙ ap ok (omega arith)

accept_loop-member :
    (set : List ℕ) (k : ℕ) (m : Mem) (c acc : ℕ)
    → CString m acc set
    → length set < k
    → (r : ℕ) × (a : ℕ) × (accept_loop k m c acc ≡ ok r)
      × (load m r ≡ ok a)
      × ((a == 0) ≡ not (member c set))
unfolding accept_loop member
accept_loop-member set zero m c acc str lt = absurd (omega arith)
accept_loop-member [] (suc k) m c acc str lt =
    (acc, 0, ground (arith, load-ok m acc str), load-ok m acc str, refl)
accept_loop-member (x ∷ set) (suc k) m c acc (here, low, high, rest) lt =
    elim (Bool-cases (c == x)) [
      | inl hit ↦ (acc, x, ground (arith, load-ok m acc here), load-ok m acc here, ground arith)
      | inr miss ↦
          let (r, a, got, read, test) = accept_loop-member set k m c (acc + 1) rest (omega arith) in
          (r, a, ground (arith, load-ok m acc here, got), read, ground arith)
    ]

-- Where a text with no NUL has its first byte in a set, as a pointer.
unfoldable pub first_in : ℕ → List ℕ → List ℕ → ℕ
first_in s set cs =
    let n = prefix_length (λ c. not (member c set)) cs in if ltb n (length cs) then s + n else 0

module _ (set : List ℕ) (k : ℕ) (m : Mem) (accept : ℕ) (str2 : CString m accept set)
    (fits : length set < k) where
  strpbrk_loop-first_in :
      (cs : List ℕ) (f str acc : ℕ)
      → CString m str cs
      → length cs < f
      → (cs ≡ [] → load m acc ≡ ok 0)
      → (r : ℕ) × (b : ℕ) × (a : ℕ) × (strpbrk_loop k f m accept str acc ≡ ok (r, b))
        × (load m b ≡ ok a)
        × ((if a == 0 then 0 else r) ≡ first_in str set cs)
  unfolding strpbrk_loop first_in prefix_length
  strpbrk_loop-first_in cs zero str acc text lt end = absurd (omega arith)
  strpbrk_loop-first_in [] (suc f) str acc text lt end =
      (str, acc, 0, ground (arith, load-ok m str text, end refl), end refl, ground arith)
  strpbrk_loop-first_in (c ∷ cs) (suc f) str acc (here, low, high, rest) lt end =
      let (b, a, got, read, test) = accept_loop-member set k m c accept str2 fits in
      elim (Bool-cases (a == 0)) [
        | inl miss ↦
            let zero_read : load m b ≡ ok 0 = ground arith in
            let (r, b', a', got', read', value) =
              strpbrk_loop-first_in cs f (str + 1) b rest (omega arith) (λ _. zero_read) in
            (
              r,
              b',
              a',
              ground (arith, load-ok m str here, got, read, got'),
              read',
              ground (arith, value, test),
            )
        | inr hit ↦
            (str, b, a, ground (arith, load-ok m str here, got, read), read, ground (arith, test))
      ]

-- On two strings, with more fuel than either has characters, `strpbrk` ends in bounds with the
-- address of the first byte of the first string that is in the second, and with the null pointer
-- if there is none.
pub strpbrk-first_in :
    (set cs : List ℕ) (f : ℕ) (m : Mem) (str accept : ℕ)
    → CString m accept set
    → CString m str cs
    → length set < f
    → length cs < f
    → strpbrk f m str accept ≡ ok (first_in str set cs)
unfolding strpbrk first_in prefix_length
strpbrk-first_in set [] f m str accept str2 text lt2 lt1 = ground (arith, load-ok m str text)
strpbrk-first_in set (c ∷ cs) f m str accept str2 (here, low, high, rest) lt2 lt1 =
    let (r, b, a, got, read, value) =
      strpbrk_loop-first_in set f m accept str2 lt2 (c ∷ cs) f str accept (here, low, high, rest)
        lt1 (λ e. cc) in
    ground (arith, load-ok m str here, got, read, value)
