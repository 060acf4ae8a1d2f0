-- ===== src/Tests/Strings.antt =====
-- libc/string on a memory that holds "hello" at 100, "lo" at 110 and "help" at 120.
use free_micro_nix.Base.{
  ℕ, ◌+◌, ◌-◌, ◌≤◌, ◌<◌, ◌≡◌, refl, inr, none, some, List, [], ◌∷◌, ◌++◌, arith, ltb, ◌==◌,
  if◌then◌else◌, Returns, ok,
}
use free_micro_nix.Mem.{Mem, IsObject, CString, SameOutside, write}
use free_micro_nix.Libc.Str.Copy.Laws.{Placed, strcat-append}
use free_micro_nix.Libc.Str.Compare.Laws.{Compares, strcmp-Compares}
use free_micro_nix.Libc.Str.Find.{strstr}
use free_micro_nix.Libc.Str.Copy.Padded.{Padded, strncpy-Padded}
use free_micro_nix.Libc.Str.Block.Copied.{Copied, memmove-Copied}
use free_micro_nix.Libc.Str.Text.{member, prefix_length, occurrence}
use free_micro_nix.Libc.Str.Block.{memmove}
use free_micro_nix.Libc.Str.Scan.Laws.{pointer}
use free_micro_nix.Libc.Str.Copy.{strncpy, strcat}
use free_micro_nix.Libc.Str.Compare.{strcmp}
use free_micro_nix.Libc.Str.Find.Laws.{strstr-occurrence}
use free_micro_nix.Libc.Str.Token.Next.{next_token, drop}
use free_micro_nix.Libc.Str.Token.Cut.{IsSplittable, Split}
use free_micro_nix.Libc.Str.Token.Words.{words, fields, nonempty, lengthen}
use free_micro_nix.Libc.Str.Token.Split.{strtok_all, strtok_all-words}
use free_micro_nix.Libc.Str.Token.Reentrant.{strtok_r_all, strtok_r_all-words}
use free_micro_nix.Libc.Number.Reverse.{strreverse}
use free_micro_nix.Libc.Number.Reverse.Mirror.{strreverse-Mirrored}

abbrev pub overlay : ℕ → List ℕ → Mem → Mem
overlay p [] m = m
overlay p (x ∷ xs) m = λ a. if a == p then some x else overlay (p + 1) xs m a

abbrev pub hello : List ℕ
hello = b'h' ∷ b'e' ∷ b'l' ∷ b'l' ∷ b'o' ∷ []

abbrev pub lo : List ℕ
lo = b'l' ∷ b'o' ∷ []

abbrev help : List ℕ
help = b'h' ∷ b'e' ∷ b'l' ∷ b'p' ∷ []

-- The object ends at 200.
abbrev pub blank : Mem
blank a = if ltb a 200 then some 0 else none

abbrev pub ram : Mem
ram = overlay 100 hello (overlay 110 lo (overlay 120 help blank))

hello_here : CString ram 100 hello
hello_here = (
  refl,
  omega arith,
  omega arith,
  (
    refl,
    omega arith,
    omega arith,
    (
      refl,
      omega arith,
      omega arith,
      (refl, omega arith, omega arith, (refl, omega arith, omega arith, refl)),
    ),
  ),
)

lo_here : CString ram 110 lo
lo_here = (refl, omega arith, omega arith, (refl, omega arith, omega arith, refl))

help_here : CString ram 120 help
help_here = (
  refl,
  omega arith,
  omega arith,
  (
    refl,
    omega arith,
    omega arith,
    (refl, omega arith, omega arith, (refl, omega arith, omega arith, refl)),
  ),
)

pub room : (p n : ℕ) → p + n ≤ 200 → IsObject ram p n
room p n fits i lt = ground arith

memmove-Copied_example :
    Returns (λ (g, r). (r ≡ 102) × Copied ram 102 100 0 4 g) (memmove ram 102 100 4)
memmove-Copied_example =
    memmove-Copied ram 102 100 4 (room 100 4 (omega arith)) (room 102 4 (omega arith))

strcmp-Compares_example : Returns (Compares hello help) (strcmp 9 ram 100 120)
strcmp-Compares_example =
    strcmp-Compares hello help 9 ram 100 120 hello_here help_here (omega arith)

strcat-append_example :
    Returns (λ (g, r). (r ≡ 120) × Placed ram 120 (help ++ lo) g) (strcat 9 ram 120 110)
strcat-append_example =
    strcat-append help lo 9 ram 120 110 help_here lo_here (omega arith) (omega arith)
      (inr (omega arith)) (room 120 7 (omega arith))

strncpy-Padded_example :
    Returns (λ (g, r). (r ≡ 150) × Padded ram 150 8 hello g) (strncpy ram 150 100 8)
strncpy-Padded_example =
    strncpy-Padded 8 hello ram 150 100 hello_here (inr (omega arith)) (room 150 8 (omega arith))

strstr-occurrence_example : strstr 9 ram 100 110 ≡ ok (pointer 100 (occurrence lo hello))
strstr-occurrence_example =
    strstr-occurrence lo hello 9 ram 100 110 hello_here lo_here (omega arith) (omega arith)

strreverse-Mirrored_example :
    Returns
      (λ (g, r).
        (r ≡ 100)
        × ((i : ℕ) → i < 5 → g (100 + i) ≡ ram (100 + (5 - 1 - i)))
        × SameOutside 100 5 ram g)
      (strreverse 9 ram 100)
strreverse-Mirrored_example =
    strreverse-Mirrored hello 9 ram 100 hello_here (omega arith) (omega arith)

-- The token of "hello" between the bytes of "lo" is "he".
he_is_token : next_token lo hello ram 100 ≡ (write ram 102 0, 103, 100)
unfolding next_token prefix_length drop member
he_is_token = refl

hello-IsSplittable : IsSplittable lo hello 9 ram 100 110
hello-IsSplittable = record {
  delimiters = lo_here;
  text = hello_here;
  apart = inr (omega arith);
  fuel = (omega arith, omega arith);
  addresses = (omega arith, omega arith);
}

strtok_all-words_example : Returns (Split lo hello ram 100) (strtok_all 9 9 ram 0 100 110)
strtok_all-words_example =
    strtok_all-words 9 lo hello 9 ram 0 100 100 110 refl hello-IsSplittable (omega arith)

strtok_r_all-words_example : Returns (Split lo hello ram 100) (strtok_r_all 9 9 ram 100 110 0)
strtok_r_all-words_example =
    strtok_r_all-words 9 lo hello 9 ram 100 110 0 100 refl hello-IsSplittable (omega arith)

-- A byte of the set at either end, and two in a row.
split_fields :
    words (b',' ∷ []) (b',' ∷ b'a' ∷ b',' ∷ b',' ∷ b'b' ∷ b'c' ∷ b',' ∷ [])
    ≡ (b'a' ∷ []) ∷ (b'b' ∷ b'c' ∷ []) ∷ []
unfolding words fields nonempty member lengthen
split_fields = refl
