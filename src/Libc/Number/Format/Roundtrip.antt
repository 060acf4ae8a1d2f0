-- ===== src/Libc/Number/Format/Roundtrip.antt =====
-- What uitoa writes in base 10, atoi reads.
use free_micro_nix.Base.{
  ℕ, zero, suc, ◌+◌, ◌-◌, ◌/◌, ◌%◌, ◌^◌, ◌<◌, ◌≡◌, refl, ap, ◌∙◌, inl, inr, List, [], ◌∷◌, ◌++◌,
  arith, ◌==◌, if◌then◌else◌, Bool-cases, length, length-append, ◌>>=◌, ok,
}
use free_micro_nix.Mem.{Mem, IsObject}
use free_micro_nix.Libc.Number.Numeral.{
  value, digit_value, length-digits, digit_char, numeral, value-numeral,
}
use free_micro_nix.Libc.Number.Format.{uitoa, atoi}
use free_micro_nix.Libc.Number.Format.Digits.{zeros}
use free_micro_nix.Libc.Number.Format.Unsigned.{padded, length-zeros, length-numeral, u64toa-padded}
use free_micro_nix.Libc.Number.Format.Parsed.{IsDecimal, IsDecimal-append, atoi-value}

numeral-IsDecimal : (k val : ℕ) → IsDecimal (numeral 10 k val)
unfolding numeral digit_char
numeral-IsDecimal zero val = tt
numeral-IsDecimal (suc k) val =
    IsDecimal-append (if val / 10 == 0 then [] else numeral 10 k (val / 10))
      (digit_char (val % 10) ∷ [])
      (elim (Bool-cases (val / 10 == 0)) [
        | inl last ↦ rw last tt
        | inr next ↦ rw next (numeral-IsDecimal k (val / 10))
      ])
      (ground arith, ground arith, tt)

zeros-IsDecimal : (n : ℕ) → IsDecimal (zeros n)
unfolding zeros
zeros-IsDecimal zero = tt
zeros-IsDecimal (suc n) = (omega arith, omega arith, zeros-IsDecimal n)

value-zeros : (n : ℕ) (cs : List ℕ) → value 10 0 (zeros n ++ cs) ≡ value 10 0 cs
unfolding value zeros digit_value
value-zeros zero cs = refl
value-zeros (suc n) cs = value-zeros n cs

-- `atoi` reads back every 32-bit number that `uitoa` writes in base 10, however many zeros pad it, from a
-- buffer with room for its digits and the padding, not at the null address, with more fuel than the
-- buffer has bytes.
pub atoi-uitoa :
    (f val min buf : ℕ) (m : Mem)
    → val < 2 ^ 32
    → 10 + min < f
    → 0 < buf
    → IsObject m buf (suc (10 + min))
    → (uitoa f m buf val 10 min >>= λ (g, r). atoi f g r) ≡ ok val
unfolding padded
atoi-uitoa f val min buf m lt fuel on obj =
    let whole : val % 2 ^ 32 ≡ val = omega arith in
    let both =
      u64toa-padded 10 10 f val min buf m (omega arith) (omega arith) (omega arith) (omega arith)
        fuel on obj in
    let returned = both.1 in
    let ((g, r), run, (same, text, outside)) = rw whole at returned in
    let pad = zeros (min - length (numeral 10 10 val)) in
    let dec =
      IsDecimal-append pad (numeral 10 10 val) (zeros-IsDecimal (min - length (numeral 10 10 val)))
        (numeral-IsDecimal 10 val) in
    let short : length (pad ++ numeral 10 10 val) < f = omega (
      arith,
      length-append pad (numeral 10 10 val),
      length-zeros (min - length (numeral 10 10 val)),
      length-numeral 10 10 val,
      length-digits 10 10 val,
    ) in
    let back : value 10 0 (pad ++ numeral 10 10 val) ≡ val =
      value-zeros (min - length (numeral 10 10 val)) (numeral 10 10 val)
      ∙ value-numeral 10 10 val (omega arith) (omega arith) (omega arith) in
    rw run (
      ap (λ p. atoi f g p) same
      ∙ atoi-value (pad ++ numeral 10 10 val) f g buf text dec short
      ∙ ap ok (omega (arith, back)))
