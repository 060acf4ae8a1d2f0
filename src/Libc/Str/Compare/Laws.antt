-- ===== src/Libc/Str/Compare/Laws.antt =====
-- memcmp and strcmp against the dictionary order.
use free_micro_nix.Base.{
  ℕ, zero, suc, ◌+◌, ◌<◌, ◌≡◌, refl, ap, ◌≢◌, inl, inr, true, false, List, [], ◌∷◌, arith, ◌==◌,
  Bool-cases, length, Returns, Returns-mono, ℤ, sub_ℕ, is_neg, is_zero, pos,
}
use free_micro_nix.Mem.{Mem, CString, Bytes}
use free_micro_nix.Mem.Laws.{load-ok}
use free_micro_nix.Libc.Str.Text.{lex_lt, is_prefix}
use free_micro_nix.Libc.Str.Compare.{memcmp, strcmp}

-- What the sign of a comparison says of the two sequences.
pub record Compares (xs ys : List ℕ) (r : ℤ) : Type 0 where
  pub zero_of_eq : xs ≡ ys → is_zero r ≡ true
  pub eq_of_zero : is_zero r ≡ true → xs ≡ ys
  pub sign : is_neg r ≡ lex_lt xs ys

Compares-cons : {xs ys : List ℕ} {r : ℤ} (x : ℕ) → Compares xs ys r → Compares (x ∷ xs) (x ∷ ys) r
unfolding lex_lt
Compares-cons {xs} {ys} {r} x c = record {
  zero_of_eq = λ e. c.zero_of_eq (cc);
  eq_of_zero = λ z. ap (◌∷◌ x) (c.eq_of_zero z);
  sign = ground (arith, c.sign);
}

Compares-ne : {xs ys : List ℕ} (x y : ℕ) → x ≢ y → Compares (x ∷ xs) (y ∷ ys) (sub_ℕ x y)
unfolding lex_lt
Compares-ne x y ne = record {
  zero_of_eq = λ e. absurd (ne (cc));
  eq_of_zero = λ z. ground arith;
  sign = ground arith;
}

-- On two blocks of `n` bytes `memcmp` ends in bounds; its result is zero exactly if they are equal,
-- and negative exactly if the first is before the second in the dictionary order.
memcmp-Compares :
    (xs ys : List ℕ) (n : ℕ) (m : Mem) (p q : ℕ)
    → Bytes m p xs
    → Bytes m q ys
    → length xs ≡ n
    → length ys ≡ n
    → Returns (Compares xs ys) (memcmp n m p q)
unfolding memcmp lex_lt
memcmp-Compares [] [] zero m p q bx by ex ey =
    (pos 0, refl, record { zero_of_eq = λ e. refl; eq_of_zero = λ z. refl; sign = refl })
memcmp-Compares [] ys (suc n) m p q bx by ex ey = absurd (omega arith)
memcmp-Compares [] (y ∷ ys) zero m p q bx by ex ey = absurd (omega arith)
memcmp-Compares (x ∷ xs) ys zero m p q bx by ex ey = absurd (omega arith)
memcmp-Compares (x ∷ xs) [] (suc n) m p q bx by ex ey = absurd (omega arith)
memcmp-Compares (x ∷ xs) (y ∷ ys) (suc n) m p q (hx, bx) (hy, by) ex ey = rw (load-ok m p hx) (
    rw (load-ok m q hy) (elim (Bool-cases (x == y)) [
      | inl same ↦ rw same (
          let e : x ≡ y = ground arith in
          rw e (
            Returns-mono
              (memcmp-Compares xs ys n m (p + 1) (q + 1) bx by (omega arith) (omega arith))
              λ r c. Compares-cons y c))
      | inr differ ↦ rw differ ((sub_ℕ x y, refl, Compares-ne x y (ground arith)))
    ]))

-- On two strings, with more fuel than the first has characters, `strcmp` ends in bounds; its result
-- is zero exactly if they are equal, and negative exactly if the first is before the second in
-- the dictionary order.
pub strcmp-Compares :
    (xs ys : List ℕ) (f : ℕ) (m : Mem) (s1 s2 : ℕ)
    → CString m s1 xs
    → CString m s2 ys
    → length xs < f
    → Returns (Compares xs ys) (strcmp f m s1 s2)
unfolding strcmp lex_lt
strcmp-Compares xs ys zero m s1 s2 tx ty lt = absurd (omega arith)
strcmp-Compares [] [] (suc f) m s1 s2 tx ty lt = rw (load-ok m s1 tx) (
    rw (load-ok m s2 ty)
      (pos 0, refl, record { zero_of_eq = λ e. refl; eq_of_zero = λ z. refl; sign = refl }))
strcmp-Compares [] (y ∷ ys) (suc f) m s1 s2 tx (hy, ly, uy, ty) lt = rw (load-ok m s1 tx) (
    rw (load-ok m s2 hy) (
      sub_ℕ 0 y,
      refl,
      record { zero_of_eq = λ e. cc; eq_of_zero = λ z. ground arith; sign = ground arith },
    ))
strcmp-Compares (x ∷ xs) [] (suc f) m s1 s2 (hx, lx, ux, tx) ty lt = rw (load-ok m s1 hx) (
    rw (load-ok m s2 ty) (
      sub_ℕ x 0,
      ground arith,
      record { zero_of_eq = λ e. cc; eq_of_zero = λ z. ground arith; sign = ground arith },
    ))
strcmp-Compares (x ∷ xs) (y ∷ ys) (suc f) m s1 s2 (hx, lx, ux, tx) (hy, ly, uy, ty) lt =
    let more : (x == 0) ≡ false = ground arith in
    rw (load-ok m s1 hx) (
      rw (load-ok m s2 hy) (
        rw more (elim (Bool-cases (x == y)) [
          | inl same ↦ rw same (
              let e : x ≡ y = ground arith in
              rw e (
                Returns-mono (strcmp-Compares xs ys f m (s1 + 1) (s2 + 1) tx ty (omega arith))
                  λ r c. Compares-cons y c))
          | inr differ ↦ rw differ ((sub_ℕ x y, refl, Compares-ne x y (ground arith)))
        ])))

-- Against a pattern without NUL a comparison ends at the string's terminator at the latest.
pub memcmp-is_prefix :
    (pat cs : List ℕ) (m : Mem) (s p : ℕ)
    → CString m s cs
    → CString m p pat
    → Returns (λ r. is_zero r ≡ is_prefix pat cs) (memcmp (length pat) m s p)
unfolding memcmp is_prefix
memcmp-is_prefix [] cs m s p ts tp = (pos 0, refl, refl)
memcmp-is_prefix (x ∷ pat) [] m s p ts (hx, lx, ux, tp) =
    (sub_ℕ 0 x, ground (arith, load-ok m s ts, load-ok m p hx), ground arith)
memcmp-is_prefix (x ∷ pat) (c ∷ cs) m s p (hc, lc, uc, ts) (hx, lx, ux, tp) = rw (load-ok m s hc) (
    rw (load-ok m p hx) (elim (Bool-cases (c == x)) [
      | inl same ↦
          rw same (
            Returns-mono (memcmp-is_prefix pat cs m (s + 1) (p + 1) ts tp) λ r e. ground (arith, e))
      | inr differ ↦ rw differ ((sub_ℕ c x, refl, ground arith))
    ]))
