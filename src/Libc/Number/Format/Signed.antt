-- ===== src/Libc/Number/Format/Signed.antt =====
-- The texts that itoa writes.
use free_micro_nix.Base.{
  ℕ, zero, suc, ◌+◌, ◌-◌, ◌*◌, ◌^◌, ◌≤◌, ◌<◌, ◌≡◌, refl, ap, ◌∙◌, ◌⊎◌, inl, inr, true, ◌&&◌, ◌||◌,
  some, List, ◌∷◌, arith, ltb, leb, ◌==◌, if◌then◌else◌, ltb→lt, Bool-cases, length, Returns, u32,
}
use free_micro_nix.Mem.{Mem, write, IsObject}
use free_micro_nix.Mem.Laws.{
  load-ok, store-ok, write_self, write_ne, IsObject-part, IsObject-first, IsObject-write,
}
use free_micro_nix.Mem.Chars.{Ended, store-Ended, store-Wrote, CString-Chars, Chars-CString}
use free_micro_nix.Libc.Number.Numeral.{digits, numeral, reverse-digits, length-digits}
use free_micro_nix.Libc.Number.Reverse.Mirror.{
  Mirrored, IsBytes, Exchanged, Exchanged-IsBytes, Exchanged-Mirrored, Mirrored-met, CString-byte,
}
use free_micro_nix.Libc.Number.Reverse.Backwards.{Chars-reverse}
use free_micro_nix.Libc.Number.Format.{swap_loop, itoa_digits, itoa, sign_extend}
use free_micro_nix.Libc.Number.Format.Digits.{put_digits-Wrote}
use free_micro_nix.Libc.Number.Format.Unsigned.{length-numeral}

swap_loop-Mirrored :
    (f : ℕ) (m : Mem) (p1 p2 : ℕ)
    → IsBytes m p1 p2
    → 0 < f
    → p2 + 1 < p1 + 2 * f
    → Returns (Mirrored m p1 p2) (swap_loop f m p1 p2)
unfolding swap_loop
swap_loop-Mirrored zero m p1 p2 bytes left lt = absurd (omega arith)
swap_loop-Mirrored (suc f) m p1 p2 bytes left lt = elim (Bool-cases (ltb p1 p2)) [
  | inl more ↦
      let low = ltb→lt p1 p2 more in
      let (x, h1, lx) = bytes p1 (omega arith) (omega arith) in
      let (y, h2, ly) = bytes p2 (omega arith) (omega arith) in
      let m1 = write m p1 y in
      let there : m1 p2 ≡ some y = write_ne m p1 y p2 (omega arith) ∙ h2 in
      let swapped : Exchanged m p1 p2 x y (write m1 p2 x) = (
        write_ne m1 p2 x p1 (omega arith) ∙ write_self m p1 y,
        write_self m1 p2 x,
        λ a n1 n2. write_ne m1 p2 x a n2 ∙ write_ne m p1 y a n1,
      ) in
      let (g, done, mirror) =
        swap_loop-Mirrored f (write m1 p2 x) (p1 + 1) (p2 - 1) (Exchanged-IsBytes low bytes swapped)
          (omega arith) (omega arith) in
      (
        g,
        rw more (
            rw (load-ok m p1 h1) (
              rw (load-ok m p2 h2) (
                rw (store-ok m p1 y (ground (arith, h1)))
                  (rw (store-ok m1 p2 x (ground (arith, there))) done)))),
        Exchanged-Mirrored low h1 h2 swapped mirror,
      )
  | inr over ↦ (m, ground arith, Mirrored-met m p1 p2 over)
]

length-digits-pos : (base k val : ℕ) → 0 < k → 0 < length (digits base k val)
unfolding digits
length-digits-pos base zero val left = absurd (omega arith)
length-digits-pos base (suc k) val left = omega arith

-- The digits of a number of at most `k` digits, and where they end.
itoa_digits-numeral :
    (base k f val str : ℕ) (m : Mem)
    → 2 ≤ base
    → base ≤ 16
    → 0 < k
    → val < base ^ k
    → k < f
    → IsObject m str (suc k)
    → let text = numeral base k val in
      Returns
        (λ (g, p). (p ≡ str + length text) × Ended m str text g)
        (itoa_digits f m str val base)
unfolding itoa_digits
itoa_digits-numeral base k f val str m low high left lt fuel obj =
    let ds = digits base k val in
    let few = length-digits base k val in
    let shape = reverse-digits base k val in
    let long = length-numeral base k val in
    let (g1, run1, w1) =
      put_digits-Wrote base k f val str 0 m low high left lt (omega arith)
        (IsObject-part m str (suc k) str k obj (omega arith) (omega arith)) in
    let (run2, ended) = store-Ended ds str (str + length ds) (suc k) w1 refl obj (omega arith) in
    let g2 = write g1 (str + length ds) 0 in
    let (front, end) = CString-Chars ds g2 str ended.text in
    let some_digits = length-digits-pos base k val left in
    let (g3, run3, mirror) =
      swap_loop-Mirrored f g2 str (str + length ds - 1)
        (λ a l h. CString-byte ds g2 str a ended.text l (omega arith)) (omega arith)
        (omega arith) in
    let turned =
      Chars-reverse ds g2 g3 str str front
        λ i l. mirror.inside (str + i) (omega arith) (omega arith) ∙ ap g2 (omega arith) in
    let closed : g3 (str + length (numeral base k val)) ≡ some 0 =
      ap (λ n. g3 (str + n)) long ∙ mirror.outside (str + length ds) (omega arith) ∙ end in
    (
      (g3, str + length ds),
      rw run1 (rw run2 (rw run3 refl)),
      (
        omega arith,
        record {
          text = Chars-CString (numeral base k val) g3 str (rw shape at turned) closed;
          outside = λ a out. mirror.outside a (omega arith) ∙ ended.outside a (omega arith);
        },
      ),
    )

-- What `itoa` is to write for an `int` by its 32-bit pattern: in base 16 the 64-bit pattern, in base 10 a
-- sign and the absolute value.
unfoldable pub itoa_text : ℕ → ℕ → List ℕ
itoa_text val base =
    if (base == b'd' || base == 10) && leb (2 ^ 31) val
    then b'-' ∷ numeral 10 10 (2 ^ 32 - val)
    else if base == b'x' || base == 16
    then numeral 16 16 (sign_extend val)
    else numeral 10 10 val

-- The numbers whose text fits into 20 bytes: those from 0 on, in base 16 all, and those below 0 but the
-- least one if they are written with a sign.
abbrev pub Fits : ℕ → ℕ → Type 0
Fits val base =
    (val < 2 ^ 31)
    ⊎ ((base == b'x' || base == 16) ≡ true)
    ⊎ (((base == b'd' || base == 10) ≡ true) × (2 ^ 31 < val) × (val < 2 ^ 32))

-- On a buffer of 20 bytes, for a 32-bit pattern that fits there, with more fuel than 16, `itoa` ends in
-- bounds, leaves the text there, returns the address of its terminator, and changes no byte outside the
-- text.
pub itoa-Ended :
    (f val str base : ℕ) (m : Mem)
    → val < 2 ^ 32
    → Fits val base
    → 16 < f
    → IsObject m str 20
    → let text = itoa_text val base in
      Returns (λ (g, p). (p ≡ str + length text) × Ended m str text g) (itoa f m val str base)
unfolding itoa itoa_text
itoa-Ended f val str base m lt fits fuel obj =
    elim (Bool-cases ((base == b'd' || base == 10) && leb (2 ^ 31) val)) [
      | inl negative ↦
          let below : (2 ^ 31 < val) = ground arith in
          let size : sign_extend (u32 (2 ^ 32 - val)) ≡ 2 ^ 32 - val = ground arith in
          let (stored, w) =
            store-Wrote m str b'-' (IsObject-first m str 19 obj) (omega arith) (omega arith) in
          let m1 = write m str b'-' in
          let ((g, p), run, (at, ended)) =
            itoa_digits-numeral 10 10 f (2 ^ 32 - val) (str + 1) m1 (omega arith) (omega arith)
              (omega arith) (omega arith) (omega arith)
              (IsObject-write m str b'-' (str + 1) 11
                (IsObject-part m str 20 (str + 1) 11 obj (omega arith) (omega arith))) in
          rw negative (
            rw stored (
              rw size (
                (g, p),
                run,
                (
                  omega arith,
                  record {
                    text = (
                      ended.outside str (omega arith) ∙ write_self m str b'-',
                      omega arith,
                      omega arith,
                      ended.text,
                    );
                    outside = λ a out.
                        ended.outside a (omega arith) ∙ write_ne m str b'-' a (omega arith);
                  },
                ),
              )))
      | inr plain ↦ rw plain (elim (Bool-cases (base == b'x' || base == 16)) [
        | inl hex ↦ rw hex (
            itoa_digits-numeral 16 16 f (sign_extend val) str m (omega arith) (omega arith)
              (omega arith) (ground arith) fuel
              (IsObject-part m str 20 str 17 obj (omega arith) (omega arith)))
        | inr dec ↦
            let small : val < 2 ^ 31 = ground arith in
            let same : sign_extend val ≡ val = ground arith in
            rw dec (
              rw same (
                itoa_digits-numeral 10 10 f val str m (omega arith) (omega arith) (omega arith)
                  (omega arith) (omega arith)
                  (IsObject-part m str 20 str 11 obj (omega arith) (omega arith))))
      ])
    ]

pub length-itoa_text : (val base : ℕ) → length (itoa_text val base) < 20
unfolding itoa_text
length-itoa_text val base = ground (
  arith,
  length-numeral 10 10 val,
  length-digits 10 10 val,
  length-numeral 10 10 (2 ^ 32 - val),
  length-digits 10 10 (2 ^ 32 - val),
  length-numeral 16 16 (sign_extend val),
  length-digits 16 16 (sign_extend val),
)
