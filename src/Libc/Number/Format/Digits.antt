-- ===== src/Libc/Number/Format/Digits.antt =====
-- What the loops that write digits leave in memory.
use free_micro_nix.Base.{
  ℕ, zero, suc, ◌+◌, ◌-◌, ◌/◌, ◌%◌, ◌^◌, ◌≤◌, ◌<◌, ◌≡◌, refl, ◌∙◌, inl, inr, List, [], ◌∷◌, arith,
  ◌==◌, Bool-cases, length, ok,
}
use native.Mathlib.Nat.{mod-lt}
use free_micro_nix.Mem.{Mem, write, IsObject}
use free_micro_nix.Mem.Laws.{IsObject-write, IsObject-first, IsObject-rest}
use free_micro_nix.Mem.Chars.{Wrote, Wrote-append, store-Wrote}
use free_micro_nix.Libc.Number.Numeral.{
  digit_char, digit_char-bounds, digits, div-lt_pow, left_of_quotient,
}
use free_micro_nix.Libc.Number.Format.{put_digits, put_zeros}

pub put_digits-Wrote :
    (base k f val p min : ℕ) (m : Mem)
    → 2 ≤ base
    → base ≤ 16
    → 0 < k
    → val < base ^ k
    → k ≤ f
    → IsObject m p k
    → let ds = digits base k val in
      (g : Mem) × (put_digits f m p val base min ≡ ok (g, p + length ds, min - length ds))
      × Wrote m p ds g
unfolding put_digits digits
put_digits-Wrote base zero f val p min m low high left lt fuel obj = absurd (omega arith)
put_digits-Wrote base (suc k) zero val p min m low high left lt fuel obj = absurd (omega arith)
put_digits-Wrote base (suc k) (suc f) val p min m low high left lt fuel obj =
    let c = digit_char (val % base) in
    let fits : val % base < 16 = omega (arith, mod-lt val {m = base} (omega arith)) in
    let (positive, byte) = digit_char-bounds (val % base) fits in
    let (stored, w) = store-Wrote m p c (IsObject-first m p k obj) positive (omega arith) in
    elim (Bool-cases (val / base == 0)) [
      | inl last ↦ (write m p c, rw stored (rw last refl), rw last w)
      | inr next ↦
          let small = div-lt_pow base k val (omega arith) lt in
          let more = left_of_quotient base k val small (ground arith) in
          let obj' = IsObject-write m p c (p + 1) k (IsObject-rest m p k obj) in
          let (g, run, w') =
            put_digits-Wrote base k f (val / base) (p + 1) (min - 1) (write m p c) low high more
              small (omega arith) obj' in
          (
            g,
            rw stored (rw next (run ∙ ground arith)),
            rw next (Wrote-append (c ∷ []) (digits base k (val / base)) w w'),
          )
    ]

-- The padding.
unfoldable pub zeros : ℕ → List ℕ
zeros zero = []
zeros (suc n) = b'0' ∷ zeros n

pub put_zeros-Wrote :
    (n p : ℕ) (m : Mem)
    → IsObject m p n
    → (g : Mem) × (put_zeros n m p ≡ ok (g, p + n)) × Wrote m p (zeros n) g
unfolding put_zeros zeros
put_zeros-Wrote zero p m obj = (m, ground arith, record { text = tt; outside = λ a out. refl })
put_zeros-Wrote (suc n) p m obj =
    let (stored, w) = store-Wrote m p b'0' (IsObject-first m p n obj) (omega arith) (omega arith) in
    let (g, run, w') =
      put_zeros-Wrote n (p + 1) (write m p b'0')
        (IsObject-write m p b'0' (p + 1) n (IsObject-rest m p n obj)) in
    (g, rw stored (run ∙ ground arith), Wrote-append (b'0' ∷ []) (zeros n) w w')
