-- ===== src/Libc/Number/Numeral.antt =====
-- Numerals as texts: what the functions of libc/stdlib are specified by.
use free_micro_nix.Base.{
  ℕ, zero, suc, ◌+◌, ◌-◌, ◌*◌, ◌/◌, ◌%◌, ◌^◌, ◌≤◌, ◌<◌, ◌≡◌, refl, ◌≢◌, inl, inr, List, [], ◌∷◌,
  ◌++◌, arith, ltb, ◌==◌, if◌then◌else◌, Bool-cases, length,
}
use mathlib.Core.List.{reverse, reverse-cons}
use native.Mathlib.Nat.{pow-suc, pow-zero, div-lt_iff_lt-mul, div-add-mod'}

-- `num[d]` of uitoa, and `d < 10 ? d + '0' : d + 'A' - 10` of itoa
unfoldable pub digit_char : ℕ → ℕ
digit_char d = if ltb d 10 then b'0' + d else b'A' + (d - 10)

pub digit_char-bounds : (d : ℕ) → d < 16 → (0 < digit_char d) × (digit_char d < 128)
unfolding digit_char
digit_char-bounds d lt = ground arith

unfoldable pub digit_value : ℕ → ℕ
digit_value c = if ltb c 58 then c - 48 else c - 55

pub digit_value-digit_char : (d : ℕ) → digit_value (digit_char d) ≡ d
unfolding digit_value digit_char
digit_value-digit_char d = ground arith

-- The number that a text is in a base, behind what was read before.
unfoldable pub value : ℕ → ℕ → List ℕ → ℕ
value base before [] = before
value base before (c ∷ cs) = value base (before * base + digit_value c) cs

pub value-append :
    (base before : ℕ) (cs : List ℕ) (c : ℕ)
    → value base before (cs ++ c ∷ []) ≡ value base before cs * base + digit_value c
unfolding value
value-append base before [] c = refl
value-append base before (x ∷ cs) c = value-append base (before * base + digit_value x) cs c

-- The numeral of a number of at most `k` digits, without leading zeros.
unfoldable pub numeral : ℕ → ℕ → ℕ → List ℕ
numeral base zero val = []
numeral base (suc k) val =
    let front = numeral base k (val / base) in
    (if val / base == 0 then [] else front) ++ digit_char (val % base) ∷ []

-- The same digits, the last one first.
unfoldable pub digits : ℕ → ℕ → ℕ → List ℕ
digits base zero val = []
digits base (suc k) val =
    let rest = digits base k (val / base) in
    digit_char (val % base) ∷ (if val / base == 0 then [] else rest)

pub reverse-digits : (base k val : ℕ) → reverse (digits base k val) ≡ numeral base k val
unfolding digits numeral
reverse-digits base zero val = refl
reverse-digits base (suc k) val =
    rw
      (reverse-cons (digit_char (val % base))
        (if val / base == 0 then [] else digits base k (val / base)))
      (ground (arith, reverse-digits base k (val / base)))

pub length-digits : (base k val : ℕ) → length (digits base k val) ≤ k
unfolding digits
length-digits base zero val = omega arith
length-digits base (suc k) val = ground (arith, length-digits base k (val / base))

-- A quotient has a digit less.
pub div-lt_pow : (base k val : ℕ) → 0 < base → val < base ^ suc k → val / base < base ^ k
div-lt_pow base k val low lt = (div-lt_iff_lt-mul low).1 (rw (pow-suc base k) at lt)

pub left_of_quotient : (base k val : ℕ) → val / base < base ^ k → val / base ≢ 0 → 0 < k
left_of_quotient base zero val lt ne = absurd (omega (arith, pow-zero base))
left_of_quotient base (suc k) val lt ne = omega arith

-- A numeral of enough digits is a text of that number.
pub value-numeral :
    (base k val : ℕ) → 0 < base → 0 < k → val < base ^ k → value base 0 (numeral base k val) ≡ val
unfolding numeral value
value-numeral base zero val low left lt = absurd (omega arith)
value-numeral base (suc k) val low left lt =
    let small = div-lt_pow base k val low lt in
    let more = left_of_quotient base k val small in
    let whole = div-add-mod' val base in
    rw
      (value-append base 0 (if val / base == 0 then [] else numeral base k (val / base))
        (digit_char (val % base)))
      (rw (digit_value-digit_char (val % base)) (elim (Bool-cases (val / base == 0)) [
        | inl last ↦
            let none_left : val / base ≡ 0 = ground arith in rw last (rw none_left at whole)
        | inr next ↦
            rw next (rw (value-numeral base k (val / base) low (more (ground arith)) small) whole)
      ]))
