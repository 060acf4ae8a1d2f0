-- ===== src/Libc/Str/Text.antt =====
-- Texts as lists: what the functions of libc/string are specified by.
pub mod Every
use free_micro_nix.Base.{
  ℕ, suc, ◌+◌, Bool, true, false, ◌&&◌, ◌||◌, Option, none, some, List, [], ◌∷◌, ltb, ◌==◌,
  if◌then◌else◌,
}

-- The first position of `c`.
unfoldable pub position : ℕ → List ℕ → Option ℕ
position c [] = none
position c (x ∷ xs) =
    if x == c then some 0 else elim (position c xs) [ none ↦ none | some i ↦ some (i + 1) ]

unfoldable pub member : ℕ → List ℕ → Bool
member c [] = false
member c (x ∷ xs) = x == c || member c xs

-- The length of the longest prefix whose members all pass the test.
unfoldable pub prefix_length : (ℕ → Bool) → List ℕ → ℕ
prefix_length p [] = 0
prefix_length p (x ∷ xs) = if p x then suc (prefix_length p xs) else 0

unfoldable pub every : (ℕ → Bool) → List ℕ → Bool
every p [] = true
every p (x ∷ xs) = p x && every p xs

unfoldable pub is_prefix : List ℕ → List ℕ → Bool
is_prefix [] ys = true
is_prefix (x ∷ xs) [] = false
is_prefix (x ∷ xs) (y ∷ ys) = x == y && is_prefix xs ys

-- The dictionary order.
unfoldable pub lex_lt : List ℕ → List ℕ → Bool
lex_lt [] [] = false
lex_lt [] (y ∷ ys) = true
lex_lt (x ∷ xs) [] = false
lex_lt (x ∷ xs) (y ∷ ys) = ltb x y || (x == y && lex_lt xs ys)

-- The first offset below the text's length at which the pattern stands.
unfoldable pub occurrence : List ℕ → List ℕ → Option ℕ
occurrence pat [] = none
occurrence pat (x ∷ xs) =
    if is_prefix pat (x ∷ xs)
    then some 0
    else elim (occurrence pat xs) [ none ↦ none | some i ↦ some (i + 1) ]
