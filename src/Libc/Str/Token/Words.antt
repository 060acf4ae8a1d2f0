-- ===== src/Libc/Str/Token/Words.antt =====
-- The words of a text: what stands between the bytes of a set.
use free_micro_nix.Base.{
  ℕ, zero, suc, ◌+◌, ◌≤◌, ◌≡◌, refl, sym, ap, ◌∙◌, ◌≢◌, inl, inr, not, List, [], ◌∷◌, arith, ◌==◌,
  if◌then◌else◌, Bool-cases, length, set,
}
use free_micro_nix.Libc.Str.Text.{member, prefix_length}
use free_micro_nix.Libc.Str.Token.Next.{drop, prefix_length-le, length-drop}

-- The text of the first `n` bytes.
unfoldable pub take : ℕ → List ℕ → List ℕ
take zero cs = []
take (suc n) [] = []
take (suc n) (c ∷ cs) = c ∷ take n cs

-- A byte in front of the first field.
unfoldable pub lengthen : ℕ → List (List ℕ) → List (List ℕ)
lengthen c [] = (c ∷ []) ∷ []
lengthen c (field ∷ fields) = (c ∷ field) ∷ fields

-- The text split at every byte of the set.
unfoldable pub fields : List ℕ → List ℕ → List (List ℕ)
unfolding lengthen
fields set [] = [] ∷ []
fields set (c ∷ cs) =
    let rest = fields set cs in if member c set then [] ∷ rest else lengthen c rest

-- Those that are not empty.
unfoldable pub nonempty : List (List ℕ) → List (List ℕ)
nonempty [] = []
nonempty ([] ∷ fields) = nonempty fields
nonempty ((c ∷ cs) ∷ fields) = (c ∷ cs) ∷ nonempty fields

unfoldable pub words : List ℕ → List ℕ → List (List ℕ)
unfolding fields nonempty
words set cs = nonempty (fields set cs)

-- Bytes of the set in front change no word.
words-drop :
    (set cs : List ℕ) → words set (drop (prefix_length (λ c. member c set) cs) cs) ≡ words set cs
unfolding words fields nonempty drop prefix_length
words-drop set [] = refl
words-drop set (c ∷ cs) = elim (Bool-cases (member c set)) [
  | inl sep ↦ rw sep (words-drop set cs)
  | inr not_sep ↦ rw not_sep (rw not_sep refl)
]

fields-first :
    (set cs : List ℕ)
    → let j = prefix_length (λ c. not (member c set)) cs in
      fields set cs
      ≡ take j cs ∷ (let rest = fields set (drop (suc j) cs) in if j == length cs then [] else rest)
unfolding fields lengthen prefix_length take drop
fields-first set [] = refl
fields-first set (c ∷ cs) = elim (Bool-cases (member c set)) [
  | inl sep ↦ rw sep (ground arith)
  | inr not_sep ↦ rw not_sep (rw (fields-first set cs) (ground arith))
]

pub nothing-left :
    (set cs : List ℕ)
    → let k = prefix_length (λ c. member c set) cs in
      prefix_length (λ c. not (member c set)) (drop k cs) ≡ 0 → drop k cs ≡ []
unfolding prefix_length drop
nothing-left set [] e = refl
nothing-left set (c ∷ cs) e = elim (Bool-cases (member c set)) [
  | inl sep ↦ rw sep (nothing-left set cs (rw sep at e))
  | inr not_sep ↦ absurd (ground arith)
]

take-all : (cs : List ℕ) → take (length cs) cs ≡ cs
unfolding take
take-all [] = refl
take-all (c ∷ cs) = ap (λ ds. c ∷ ds) (take-all cs)

drop-behind : (n : ℕ) (cs : List ℕ) → length cs ≤ n → drop n cs ≡ []
unfolding drop
drop-behind zero [] le = refl
drop-behind zero (c ∷ cs) le = absurd (omega arith)
drop-behind (suc n) [] le = refl
drop-behind (suc n) (c ∷ cs) le = drop-behind n cs (omega arith)

take-nonempty :
    (n : ℕ) (cs : List ℕ) (rest : List (List ℕ))
    → n ≤ length cs
    → n ≢ 0
    → nonempty (take n cs ∷ rest) ≡ take n cs ∷ nonempty rest
unfolding take nonempty
take-nonempty zero cs rest le ne = absurd (ne refl)
take-nonempty (suc n) [] rest le ne = absurd (omega arith)
take-nonempty (suc n) (c ∷ cs) rest le ne = refl

-- The bytes up to the first of the set, if there are any, are a word.
words-first :
    (set cs : List ℕ)
    → let j = prefix_length (λ c. not (member c set)) cs in
      j ≢ 0 → words set cs ≡ take j cs ∷ words set (drop (suc j) cs)
unfolding words fields nonempty
words-first set cs some_taken =
    let j = prefix_length (λ c. not (member c set)) cs in
    rw (fields-first set cs) (
      rw
        (take-nonempty j cs
          (let rest = fields set (drop (suc j) cs) in if j == length cs then [] else rest)
          (prefix_length-le (λ c. not (member c set)) cs) some_taken)
        (ap (λ ws. take j cs ∷ ws)
          (elim (Bool-cases (j == length cs)) [
            | inl end ↦ rw end (rw (drop-behind (suc j) cs (ground arith)) refl)
            | inr more ↦ rw more refl
          ])))

pub length-take : (n : ℕ) (cs : List ℕ) → n ≤ length cs → length (take n cs) ≡ n
unfolding take
length-take zero cs le = refl
length-take (suc n) [] le = absurd (omega arith)
length-take (suc n) (c ∷ cs) le = ap suc (length-take n cs (omega arith))

-- The bytes of the set in front of a text, and those of the first word behind them.
unfoldable pub skipped : List ℕ → List ℕ → ℕ
skipped set cs = prefix_length (λ c. member c set) cs

unfoldable pub taken : List ℕ → List ℕ → ℕ
unfolding skipped
taken set cs = prefix_length (λ c. not (member c set)) (drop (skipped set cs) cs)

pub words-nothing : (set cs : List ℕ) → taken set cs ≡ 0 → words set cs ≡ []
unfolding skipped taken words fields nonempty
words-nothing set cs none_taken =
    sym (words-drop set cs) ∙ ap (words set) (nothing-left set cs none_taken)

pub words-next :
    (set cs : List ℕ)
    → taken set cs ≢ 0
    → let text = drop (skipped set cs) cs in
      words set cs ≡ take (taken set cs) text ∷ words set (drop (suc (taken set cs)) text)
unfolding skipped taken
words-next set cs some_taken =
    sym (words-drop set cs) ∙ words-first set (drop (skipped set cs) cs) some_taken

pub words-last :
    (set cs : List ℕ)
    → taken set cs ≢ 0
    → skipped set cs + taken set cs ≡ length cs
    → words set cs ≡ drop (skipped set cs) cs ∷ []
unfolding skipped words fields nonempty
words-last set cs some_taken all =
    let text = drop (skipped set cs) cs in
    let shorter = length-drop (skipped set cs) cs (prefix_length-le (λ c. member c set) cs) in
    let whole : taken set cs ≡ length text = omega (arith, shorter) in
    words-next set cs some_taken
    ∙ ap (λ n. take n text ∷ words set (drop (suc n) text)) whole
    ∙ rw (take-all text) (rw (drop-behind (suc (length text)) text (omega arith)) refl)
