-- ===== src/Libc/Str/Copy/Padded.antt =====
-- strncpy against texts.
use free_micro_nix.Base.{
  ℕ, zero, suc, ◌+◌, ◌≤◌, ◌<◌, ◌≡◌, refl, ◌≢◌, ◌⊎◌, false, none, some, List, [], ◌∷◌, arith, ◌==◌,
  length, Returns, Returns-bind, Returns-mono,
}
use native.Mathlib.Nat.{add-zero}
use free_micro_nix.Mem.{Mem, write, IsObject, CString, SameOutside}
use free_micro_nix.Mem.Laws.{load-ok, store-ok, IsObject-write, write_ne, write_self}
use free_micro_nix.Mem.Strings.{CString-write}
use free_micro_nix.Libc.Str.Copy.{pad, strncpy_loop, strncpy}

-- A text read with NULs behind its end.
unfoldable pub char_at : List ℕ → ℕ → ℕ
char_at [] i = 0
char_at (c ∷ cs) zero = c
char_at (c ∷ cs) (suc i) = char_at cs i

-- The `n` bytes from `dest` on are the text cut or padded by NULs to that length, and `g` differs
-- from `m` nowhere else.
pub record Padded (m : Mem) (dest n : ℕ) (cs : List ℕ) (g : Mem) : Type 0 where
  pub inside : (i : ℕ) → i < n → g (dest + i) ≡ some (char_at cs i)
  pub outside : SameOutside dest n m g

-- One byte stored in front; an exhausted text counts as one whose head is NUL.
Padded-step :
    {m g : Mem} {dest n : ℕ} {c : ℕ} {cs : List ℕ} (all : List ℕ)
    → char_at all 0 ≡ c
    → ((i : ℕ) → char_at all (suc i) ≡ char_at cs i)
    → Padded (write m dest c) (dest + 1) n cs g
    → Padded m dest (suc n) all g
unfolding char_at
Padded-step {m} {g} {dest} {n} {c} {cs} all first later rest = record {
  inside = inside;
  outside = λ a q. ground (arith, rest.outside a, write_ne m dest c a);
}
  where
    inside : (i : ℕ) → i < suc n → g (dest + i) ≡ some (char_at all i)
    inside zero q = ground (arith, first, rest.outside (dest + 0), write_self m dest c)
    inside (suc i) q =
        let shift : dest + suc i ≡ dest + 1 + i = omega arith in
        rw (shift, later i) (rest.inside i (omega arith))

module _ (n : ℕ) (m : Mem) (dest : ℕ) (obj : IsObject m dest (suc n)) where
  first_live : m dest ≢ none
  first_live = rw add-zero at (obj 0 (omega arith))

  rest_IsObject : (v : ℕ) → IsObject (write m dest v) (dest + 1) n
  rest_IsObject v = IsObject-write m dest v (dest + 1) n (λ i l. ground (arith, obj (suc i)))

pad-Padded :
    (n : ℕ) (m : Mem) (dest : ℕ) → IsObject m dest n → Returns (Padded m dest n []) (pad n m dest)
unfolding pad char_at
pad-Padded zero m dest obj =
    (m, refl, record { inside = λ i q. absurd (omega arith); outside = λ a q. refl })
pad-Padded (suc n) m dest obj = rw (store-ok m dest 0 (first_live n m dest obj)) (
    Returns-mono (pad-Padded n (write m dest 0) (dest + 1) (rest_IsObject n m dest obj 0))
      λ g p. Padded-step [] refl (λ i. refl) p)

strncpy_loop-Padded :
    (n : ℕ) (cs : List ℕ) (m : Mem) (dest src : ℕ)
    → CString m src cs
    → (dest ≤ src) ⊎ (src + length cs < dest)
    → IsObject m dest n
    → Returns (Padded m dest n cs) (strncpy_loop n m dest src)
unfolding strncpy_loop char_at
strncpy_loop-Padded zero cs m dest src str apart obj =
    (m, refl, record { inside = λ i q. absurd (omega arith); outside = λ a q. refl })
strncpy_loop-Padded (suc n) [] m dest src str apart obj =
    rw (load-ok m src str, store-ok m dest 0 (first_live n m dest obj))
      (Returns-mono (pad-Padded n (write m dest 0) (dest + 1) (rest_IsObject n m dest obj 0))
        λ g p. Padded-step [] refl (λ i. refl) p)
strncpy_loop-Padded (suc n) (c ∷ cs) m dest src (here, low, high, rest) apart obj =
    let more : (c == 0) ≡ false = ground arith in
    let later = CString-write cs m (src + 1) dest c rest (omega arith) in
    rw (load-ok m src here) (
      rw (store-ok m dest c (first_live n m dest obj)) (
        rw more (
          Returns-mono
            (strncpy_loop-Padded n cs (write m dest c) (dest + 1) (src + 1) later (omega arith)
              (rest_IsObject n m dest obj c))
            λ g p. Padded-step (c ∷ cs) refl (λ i. refl) p)))

-- `strncpy` of a string into an object of `n` bytes that does not start within the string behind
-- its first byte ends in bounds, returns `dest`, leaves there the string cut to `n` bytes or padded
-- to them by NULs, and changes no other byte.
pub strncpy-Padded :
    (n : ℕ) (cs : List ℕ) (m : Mem) (dest src : ℕ)
    → CString m src cs
    → (dest ≤ src) ⊎ (src + length cs < dest)
    → IsObject m dest n
    → Returns (λ (g, r). (r ≡ dest) × Padded m dest n cs g) (strncpy m dest src n)
unfolding strncpy
strncpy-Padded n cs m dest src str apart obj =
    Returns-bind (strncpy_loop-Padded n cs m dest src str apart obj)
      λ g p. ((g, dest), refl, (refl, p))
