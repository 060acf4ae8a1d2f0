-- ===== src/Libc/Str/Text/Every.antt =====
-- Texts whose characters all pass a test, numerals among them.
use free_micro_nix.Base.{
  ℕ, zero, suc, ◌-◌, ◌/◌, ◌%◌, ◌^◌, ◌≤◌, ◌<◌, ◌≡◌, refl, inl, inr, Bool, true, List, [], ◌∷◌, ◌++◌,
  arith, ◌==◌, Bool-cases,
}
use native.Mathlib.Nat.{mod-lt}
use free_micro_nix.Libc.Str.Text.{every}
use free_micro_nix.Libc.Number.Numeral.{digit_char, numeral}
use free_micro_nix.Libc.Number.Format.Signed.{itoa_text}

module _ (p : ℕ → Bool) where
  pub every-append :
      (cs ds : List ℕ) → every p cs ≡ true → every p ds ≡ true → every p (cs ++ ds) ≡ true
  unfolding every
  every-append [] ds h k = k
  every-append (c ∷ cs) ds h k = ground (arith, every-append cs ds)

  every-numeral :
      ((d : ℕ) → d < 16 → p (digit_char d) ≡ true)
      → (base k val : ℕ) → 0 < base
      → base ≤ 16
      → every p (numeral base k val) ≡ true
  unfolding numeral every
  every-numeral digits base zero val positive small = refl
  every-numeral digits base (suc k) val positive small =
      let low : val % base < base = mod-lt val {m = base} positive in
      let digit : every p (digit_char (val % base) ∷ []) ≡ true =
        rw (digits (val % base) (omega (arith, low))) refl in
      elim (Bool-cases (val / base == 0)) [
        | inl last ↦ rw last digit
        | inr more ↦ rw more (
            every-append (numeral base k (val / base)) (digit_char (val % base) ∷ [])
              (every-numeral digits base k (val / base) positive small) digit)
      ]

  -- What `%d` shows.
  pub every-itoa_text :
      ((d : ℕ) → d < 16 → p (digit_char d) ≡ true)
      → p b'-' ≡ true
      → (val : ℕ) → every p (itoa_text val b'd') ≡ true
  unfolding itoa_text every
  every-itoa_text digits minus val = ground (
    arith,
    every-numeral digits 10 10 val (omega arith) (omega arith),
    every-numeral digits 10 10 (2 ^ 32 - val) (omega arith) (omega arith),
  )
