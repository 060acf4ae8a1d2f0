-- ===== src/Libc/Number/Reverse/Mirror.antt =====
-- What strreverse leaves in memory.
use free_micro_nix.Base.{
  ℕ, zero, suc, ◌+◌, ◌-◌, ◌*◌, ◌≤◌, ◌<◌, bit_xor, ◌≡◌, refl, ap, ◌∙◌, ◌≢◌, ◌⊎◌, inl, inr, false,
  some, List, [], ◌∷◌, arith, ltb, ◌==◌, ltb→lt, Bool-cases, length, Returns, ok, u8,
}
use free_micro_nix.Base.Bits.{bit_xor_back, bit_xor_swap, bit_xor-lt}
use free_micro_nix.Mem.{Mem, write, CString, SameOutside}
use free_micro_nix.Mem.Laws.{load-ok, store-ok, write_self, write_ne}
use free_micro_nix.Libc.Str.Scan.Laws.{strlen-length}
use free_micro_nix.Libc.Number.Reverse.{xor_into, exchange, reverse_loop, strreverse}

-- `g` has the bytes of `m` from `p1` to `p2`, both included, in the opposite order, and is `m` otherwise.
pub record Mirrored (m : Mem) (p1 p2 : ℕ) (g : Mem) : Type 0 where
  pub inside : (a : ℕ) → p1 ≤ a → a ≤ p2 → g a ≡ m (p1 + p2 - a)
  pub outside : (a : ℕ) → (a < p1) ⊎ (p2 < a) → g a ≡ m a

-- Every address from `p1` to `p2` holds a byte.
abbrev pub IsBytes : Mem → ℕ → ℕ → Type 0
IsBytes m p1 p2 = (a : ℕ) → p1 ≤ a → a ≤ p2 → (v : ℕ) × (m a ≡ some v) × (v < 256)

xor_into-write :
    (m : Mem) (p q : ℕ) {x y : ℕ}
    → m p ≡ some x
    → m q ≡ some y
    → x < 256
    → y < 256
    → xor_into m p q ≡ ok (write m p (bit_xor x y))
unfolding xor_into
xor_into-write m p q {x} {y} hp hq lx ly =
    let small : u8 (bit_xor x y) ≡ bit_xor x y = ground (arith, bit_xor-lt x y lx ly) in
    rw (load-ok m p hp)
      (rw (load-ok m q hq) (rw small (store-ok m p (bit_xor x y) (ground (arith, hp)))))

-- What a round of a reversing loop leaves behind.
abbrev pub Exchanged : Mem → ℕ → ℕ → ℕ → ℕ → Mem → Type 0
Exchanged m p1 p2 x y g =
    (g p1 ≡ some y) × (g p2 ≡ some x) × ((a : ℕ) → a ≢ p1 → a ≢ p2 → g a ≡ m a)

exchange-Exchanged :
    (m : Mem) (p1 p2 x y : ℕ)
    → p1 < p2
    → m p1 ≡ some x
    → m p2 ≡ some y
    → x < 256
    → y < 256
    → Returns (Exchanged m p1 p2 x y) (exchange m p1 p2)
unfolding exchange
exchange-Exchanged m p1 p2 x y lt h1 h2 lx ly =
    let z = bit_xor x y in
    let lz = bit_xor-lt x y lx ly in
    let m1 = write m p1 z in
    let m2 = write m1 p2 x in
    let m3 = write m2 p1 y in
    let r1 : m1 p1 ≡ some z = write_self m p1 z in
    let r2 : m1 p2 ≡ some y = write_ne m p1 z p2 (omega arith) ∙ h2 in
    let r3 : m2 p1 ≡ some z = write_ne m1 p2 x p1 (omega arith) ∙ r1 in
    let r4 : m2 p2 ≡ some x = write_self m1 p2 x in
    let one = xor_into-write m p1 p2 h1 h2 lx ly in
    let two =
      xor_into-write m1 p2 p1 r2 r1 ly lz ∙ ap (λ v. ok (write m1 p2 v)) (bit_xor_back x y) in
    let three =
      xor_into-write m2 p1 p2 r3 r4 lz lx ∙ ap (λ v. ok (write m2 p1 v)) (bit_xor_swap x y) in
    (
      m3,
      rw one (rw two three),
      (
        write_self m2 p1 y,
        write_ne m2 p1 y p2 (omega arith) ∙ r4,
        λ a n1 n2. write_ne m2 p1 y a n1 ∙ write_ne m1 p2 x a n2 ∙ write_ne m p1 z a n1,
      ),
    )

pub Exchanged-IsBytes :
    {m g : Mem} {p1 p2 x y : ℕ}
    → p1 < p2
    → IsBytes m p1 p2
    → Exchanged m p1 p2 x y g
    → IsBytes g (p1 + 1) (p2 - 1)
Exchanged-IsBytes lt bytes (e1, e2, rest) a l h =
    rw (rest a (omega arith) (omega arith)) (bytes a (omega arith) (omega arith))

-- A round and the mirror image of what is left make the mirror image of the whole.
pub Exchanged-Mirrored :
    {m m' g : Mem} {p1 p2 x y : ℕ}
    → p1 < p2
    → m p1 ≡ some x
    → m p2 ≡ some y
    → Exchanged m p1 p2 x y m'
    → Mirrored m' (p1 + 1) (p2 - 1) g
    → Mirrored m p1 p2 g
Exchanged-Mirrored {p1 = p1} {p2 = p2} lt h1 h2 (e1, e2, rest) mirror = record {
  inside = λ a l h.
      ground (arith, mirror.outside a, mirror.inside a, e1, e2, h1, h2, rest (p1 + p2 - a));
  outside = λ a out. mirror.outside a (omega arith) ∙ rest a (ground arith) (ground arith);
}

-- Where the two ends have met, nothing is left to do.
pub Mirrored-met : (m : Mem) (p1 p2 : ℕ) → ltb p1 p2 ≡ false → Mirrored m p1 p2 m
Mirrored-met m p1 p2 over = record {
  inside = λ a l h. ap m (ground arith);
  outside = λ a out. refl;
}

reverse_loop-Mirrored :
    (f : ℕ) (m : Mem) (p1 p2 : ℕ)
    → IsBytes m p1 p2
    → 0 < f
    → p2 + 1 < p1 + 2 * f
    → Returns (Mirrored m p1 p2) (reverse_loop f m p1 p2)
unfolding reverse_loop
reverse_loop-Mirrored zero m p1 p2 bytes left lt = absurd (omega arith)
reverse_loop-Mirrored (suc f) m p1 p2 bytes left lt = elim (Bool-cases (ltb p1 p2)) [
  | inl more ↦
      let low = ltb→lt p1 p2 more in
      let (x, h1, lx) = bytes p1 (omega arith) (omega arith) in
      let (y, h2, ly) = bytes p2 (omega arith) (omega arith) in
      let (m', run, swapped) = exchange-Exchanged m p1 p2 x y low h1 h2 lx ly in
      let (g, done, mirror) =
        reverse_loop-Mirrored f m' (p1 + 1) (p2 - 1) (Exchanged-IsBytes low bytes swapped)
          (omega arith) (omega arith) in
      (g, rw more (rw run done), Exchanged-Mirrored low h1 h2 swapped mirror)
  | inr over ↦ (m, ground arith, Mirrored-met m p1 p2 over)
]

pub CString-byte :
    (cs : List ℕ) (m : Mem) (p a : ℕ)
    → CString m p cs
    → p ≤ a
    → a < p + length cs
    → (v : ℕ) × (m a ≡ some v) × (v < 256)
CString-byte [] m p a str l h = absurd (omega arith)
CString-byte (c ∷ cs) m p a (here, lc, uc, rest) l h = elim (Bool-cases (p == a)) [
  | inl first ↦ (c, ap m (ground arith) ∙ here, uc)
  | inr later ↦ CString-byte cs m (p + 1) a rest (ground arith) (omega arith)
]

-- `strreverse` of a string that is not at the null address, with more fuel than the string has
-- characters, ends in bounds, returns its argument, turns the order of the characters round and leaves
-- the terminator and every byte outside the string as they were.
pub strreverse-Mirrored :
    (cs : List ℕ) (f : ℕ) (m : Mem) (str : ℕ)
    → CString m str cs
    → length cs < f
    → 0 < str
    → Returns
        (λ (g, r).
          (r ≡ str)
          × ((i : ℕ) → i < length cs → g (str + i) ≡ m (str + (length cs - 1 - i)))
          × SameOutside str (length cs) m g)
        (strreverse f m str)
unfolding strreverse
strreverse-Mirrored [] f m str here lt low = (
  (m, str),
  ground (arith, load-ok m str here),
  (refl, λ i l. absurd (omega arith), λ a out. refl),
)
strreverse-Mirrored (c ∷ cs) f m str (here, lc, uc, rest) lt low =
    let all : CString m str (c ∷ cs) = (here, lc, uc, rest) in
    let long = strlen-length (c ∷ cs) f m str all lt in
    let (g, run, mirror) =
      reverse_loop-Mirrored f m str (str + suc (length cs) - 1)
        (λ a l h. CString-byte (c ∷ cs) m str a all l (omega arith)) (omega arith) (omega arith) in
    let on : (str == 0) ≡ false = ground arith in
    let more : (c == 0) ≡ false = ground arith in
    (
      (g, str),
      rw on (rw (load-ok m str here) (rw more (rw long (rw run refl)))),
      (
        refl,
        λ i l. mirror.inside (str + i) (omega arith) (omega arith) ∙ ap m (omega arith),
        λ a out. mirror.outside a (omega arith),
      ),
    )
