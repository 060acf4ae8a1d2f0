-- ===== src/Libc/Number/Format/Parsed.antt =====
-- The number that atoi reads.
use free_micro_nix.Base.{
  ℕ, zero, suc, ◌+◌, ◌-◌, ◌*◌, ◌^◌, ◌≤◌, ◌<◌, ◌≡◌, sym, ap, ◌∙◌, some, List, [], ◌∷◌, ◌++◌, arith,
  length, ok, u32, int_of_char,
}
use mathlib.Core.List.{reverse, reverse-cons, reverse-reverse}
use native.Mathlib.Nat.{suc-mul, add-mul, mul_assoc, mul_comm}
use free_micro_nix.Mem.{Mem, CString}
use free_micro_nix.Mem.Laws.{load-ok}
use free_micro_nix.Mem.Chars.{Chars, Chars-split, CString-Chars}
use free_micro_nix.Libc.Str.Scan.Laws.{strlen-length}
use free_micro_nix.Libc.Number.Numeral.{digit_value, value, value-append}
use free_micro_nix.Libc.Number.Reverse.Backwards.{length-reverse}
use free_micro_nix.Libc.Number.Format.{atoi_loop, atoi}

-- All characters are decimal digits.
abbrev pub IsDecimal : List ℕ → Type 0
IsDecimal [] = Unit {0}
IsDecimal (c ∷ cs) = (48 ≤ c) × (c < 58) × IsDecimal cs

pub IsDecimal-append : (ds cs : List ℕ) → IsDecimal ds → IsDecimal cs → IsDecimal (ds ++ cs)
IsDecimal-append [] cs hd hc = hc
IsDecimal-append (d ∷ ds) cs (low, high, rest) hc = (low, high, IsDecimal-append ds cs rest hc)

IsDecimal-reverse : (cs : List ℕ) → IsDecimal cs → IsDecimal (reverse cs)
IsDecimal-reverse [] h = tt
IsDecimal-reverse (c ∷ cs) (low, high, rest) =
    rw (reverse-cons c cs)
      (IsDecimal-append (reverse cs) (c ∷ []) (IsDecimal-reverse cs rest) (low, high, tt))

mul_wrapped : (d pow a : ℕ) → u32 (a + d * u32 pow) ≡ u32 (a + d * pow)
mul_wrapped zero pow a = omega arith
mul_wrapped (suc d) pow a =
    omega (arith, suc-mul d pow, suc-mul d (u32 pow), mul_wrapped d pow (a + u32 pow))

add_wrapped : (a b : ℕ) → u32 (u32 a + b) ≡ u32 (a + b)
add_wrapped a b = omega arith

-- One round, for a sum and a power that may have wrapped around.
round_sum :
    (out pow c : ℕ)
    → 48 ≤ c
    → c < 58
    → u32 (u32 out + u32 (int_of_char c + (2 ^ 32 - 48)) * u32 pow) ≡ u32 (out + (c - 48) * pow)
round_sum out pow c low high =
    let digit : u32 (int_of_char c + (2 ^ 32 - 48)) ≡ c - 48 = ground arith in
    rw digit (mul_wrapped (c - 48) pow (u32 out) ∙ add_wrapped out ((c - 48) * pow))

round_pow : (pow : ℕ) → u32 (u32 pow * 10) ≡ u32 (pow * 10)
round_pow pow = omega arith

-- The text is given with its last character first, as the loop reads it.
atoi_loop-value :
    (rs : List ℕ) (m : Mem) (str out pow : ℕ)
    → Chars m str (reverse rs)
    → IsDecimal rs
    → atoi_loop (length rs) m str (u32 out) (u32 pow)
      ≡ ok (u32 (out + value 10 0 (reverse rs) * pow))
unfolding atoi_loop value
atoi_loop-value [] m str out pow text dec = ap ok (ground arith)
atoi_loop-value (c ∷ rs) m str out pow text (low, high, dec) =
    let (front, (last, _, _, _)) =
      Chars-split (reverse rs) (c ∷ []) m str (rw (reverse-cons c rs) at text) in
    let here : m (str + length rs) ≡ some c =
      ap (λ n. m (str + n)) (sym (length-reverse rs)) ∙ last in
    let digit : digit_value c ≡ c - 48 = unfold digit_value in ground arith in
    rw (load-ok m (str + length rs) here) (
      rw (round_sum out pow c low high) (
        rw (round_pow pow) (
          rw (reverse-cons c rs) (
            rw (value-append 10 0 (reverse rs) c) (
              atoi_loop-value rs m str (out + (c - 48) * pow) (pow * 10) front dec
              ∙ ap (λ n. ok (u32 n)) (regroup digit))))))
  where
    regroup :
        {d : ℕ}
        → d ≡ c - 48
        → out + (c - 48) * pow + value 10 0 (reverse rs) * (pow * 10)
          ≡ out + (value 10 0 (reverse rs) * 10 + d) * pow
    regroup {d = d} e = rw (sym e) (
        let v = value 10 0 (reverse rs) in
        omega (
          arith,
          add-mul (v * 10) d pow,
          mul_assoc v 10 pow,
          mul_comm 10 pow,
          ap (λ (n : ℕ). v * n) (mul_comm 10 pow),
        ))

-- On a string of decimal digits, with more fuel than it has characters, `atoi` ends in bounds with the
-- number that the string is in base 10, wrapped around at 2^32.
pub atoi-value :
    (cs : List ℕ) (f : ℕ) (m : Mem) (str : ℕ)
    → CString m str cs
    → IsDecimal cs
    → length cs < f
    → atoi f m str ≡ ok (u32 (value 10 0 cs))
unfolding atoi
atoi-value cs f m str text dec lt =
    let rs = reverse cs in
    let (front, end) = CString-Chars cs m str text in
    let loop =
      atoi_loop-value rs m str 0 1 (rw (sym (reverse-reverse cs)) at front)
        (IsDecimal-reverse cs dec) in
    rw (strlen-length cs f m str text lt)
      (rw (length-reverse cs, reverse-reverse cs) at loop ∙ ap (λ n. ok (u32 n)) (omega arith))
