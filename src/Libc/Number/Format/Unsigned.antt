-- ===== src/Libc/Number/Format/Unsigned.antt =====
-- The texts that uitoa and u64toa write.
use free_micro_nix.Base.{
  ℕ, zero, suc, ◌+◌, ◌-◌, ◌%◌, ◌^◌, ◌≤◌, ◌<◌, ◌≡◌, refl, sym, ap, ◌∙◌, false, ◌||◌, List, [], ◌∷◌,
  ◌++◌, arith, ltb, length, length-append, Returns,
}
use mathlib.Core.List.{reverse, reverse-cons, reverse-append}
use free_micro_nix.Mem.{Mem, write, IsObject, SameOutside, CString}
use free_micro_nix.Mem.Laws.{IsObject-part}
use free_micro_nix.Mem.Chars.{Wrote-append, Wrote-IsObject, store-Ended}
use free_micro_nix.Libc.Number.Numeral.{digits, numeral, reverse-digits, length-digits}
use free_micro_nix.Libc.Number.Reverse.Backwards.{strreverse-reverse, length-reverse}
use free_micro_nix.Libc.Number.Format.{uitoa, u64toa}
use free_micro_nix.Libc.Number.Format.Digits.{put_digits-Wrote, put_zeros-Wrote, zeros}

pub length-zeros : (n : ℕ) → length (zeros n) ≡ n
unfolding zeros
length-zeros zero = refl
length-zeros (suc n) = ap suc (length-zeros n)

zeros-snoc : (n : ℕ) → zeros n ++ b'0' ∷ [] ≡ b'0' ∷ zeros n
unfolding zeros
zeros-snoc zero = refl
zeros-snoc (suc n) = ap (λ cs. b'0' ∷ cs) (zeros-snoc n)

reverse-zeros : (n : ℕ) → reverse (zeros n) ≡ zeros n
unfolding zeros
reverse-zeros zero = refl
reverse-zeros (suc n) =
    reverse-cons b'0' (zeros n) ∙ ap (λ cs. cs ++ b'0' ∷ []) (reverse-zeros n) ∙ zeros-snoc n

-- The numeral, filled up by zeros in front to `min` digits.
unfoldable pub padded : ℕ → ℕ → ℕ → ℕ → List ℕ
padded base k min val = zeros (min - length (numeral base k val)) ++ numeral base k val

pub length-numeral : (base k val : ℕ) → length (numeral base k val) ≡ length (digits base k val)
length-numeral base k val =
    ap length (sym (reverse-digits base k val)) ∙ length-reverse (digits base k val)

reverse-padded :
    (base k min val : ℕ)
    → reverse (digits base k val ++ zeros (min - length (digits base k val)))
      ≡ padded base k min val
unfolding padded
reverse-padded base k min val = rw (length-numeral base k val) (
    reverse-append (digits base k val) (zeros (min - length (digits base k val)))
    ∙ ap (λ cs. cs ++ reverse (digits base k val))
        (reverse-zeros (min - length (digits base k val)))
    ∙ ap (λ cs. zeros (min - length (digits base k val)) ++ cs) (reverse-digits base k val))

padded_text :
    (base k f val min buf : ℕ) (m : Mem)
    → 2 ≤ base
    → base ≤ 16
    → 0 < k
    → val < base ^ k
    → k + min < f
    → 0 < buf
    → IsObject m buf (suc (k + min))
    → let text = padded base k min val in
      Returns
        (λ (g, r). (r ≡ buf) × CString g buf text × SameOutside buf (suc (length text)) m g)
        (u64toa f m buf val base min)
unfolding u64toa
padded_text base k f val min buf m low high left lt fuel on obj =
    let ds = digits base k val in
    let few = length-digits base k val in
    let more = min - length ds in
    let len = length-append ds (zeros more) in
    let lenz = length-zeros more in
    let (g1, run1, w1) =
      put_digits-Wrote base k f val buf min m low high left lt (omega arith)
        (IsObject-part m buf (suc (k + min)) buf k obj (omega arith) (omega arith)) in
    let obj1 = Wrote-IsObject ds buf (suc (k + min)) w1 obj in
    let (g2, run2, w2) = put_zeros-Wrote more (buf + length ds) g1 (
      IsObject-part g1 buf (suc (k + min)) (buf + length ds) more obj1 (omega arith)
        (omega arith)) in
    let w = Wrote-append ds (zeros more) w1 w2 in
    let all = ds ++ zeros more in
    let (run3, ended) =
      store-Ended all buf (buf + length ds + more) (suc (k + min)) w (omega arith) obj
        (omega arith) in
    let g3 = write g2 (buf + length ds + more) 0 in
    let (r, run4, (same, turned, outside)) =
      strreverse-reverse all f g3 buf ended.text (omega arith) on in
    let shape = reverse-padded base k min val in
    let long : length (padded base k min val) ≡ length all =
      ap length (sym shape) ∙ length-reverse all in
    let sound : (ltb base 2 || ltb 16 base) ≡ false = ground arith in
    (
      (r.0, buf),
      rw sound (rw run1 (rw run2 (rw run3 (rw run4 refl)))),
      (refl, rw shape at turned, λ a out. outside a (omega arith) ∙ ended.outside a (omega arith)),
    )

-- For a base from 2 to 16, a buffer with room for `k` digits or `min`, and the terminator, that is not at
-- the null address, and a number of at most `k` digits, with more fuel than `k + min`, `u64toa` ends in
-- bounds, returns the buffer, leaves there the number's numeral, filled up by zeros in front to `min`
-- digits, and changes no byte outside the text. `uitoa` does so with the number modulo 2^32.
pub u64toa-padded :
    (base k f val min buf : ℕ) (m : Mem)
    → 2 ≤ base
    → base ≤ 16
    → 0 < k
    → val < base ^ k
    → k + min < f
    → 0 < buf
    → IsObject m buf (suc (k + min))
    → let text = padded base k min val in
      let text_32 = padded base k min (val % 2 ^ 32) in
      Returns
        (λ (g, r). (r ≡ buf) × CString g buf text × SameOutside buf (suc (length text)) m g)
        (u64toa f m buf val base min)
      × Returns
          (λ (g, r). (r ≡ buf) × CString g buf text_32 × SameOutside buf (suc (length text_32)) m g)
          (uitoa f m buf val base min)
unfolding u64toa uitoa
u64toa-padded base k f val min buf m low high left lt fuel on obj = (
  padded_text base k f val min buf m low high left lt fuel on obj,
  padded_text base k f (val % 2 ^ 32) min buf m low high left (omega arith) fuel on obj,
)
