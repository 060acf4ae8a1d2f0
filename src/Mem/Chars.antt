-- ===== src/Mem/Chars.antt =====
-- Characters in memory with no terminator behind them, and writes of one after the other.
use free_micro_nix.Base.{
  ℕ, zero, suc, ◌+◌, ◌-◌, ◌<◌, ◌≡◌, sym, ◌∙◌, ◌≢◌, inl, inr, ◌&&◌, none, some, List, [], ◌∷◌, ◌++◌,
  arith, ltb, leb, Bool-cases, length, length-append, ok,
}
use native.Mathlib.Nat.{add-zero}
use free_micro_nix.Mem.{Mem, write, store, IsObject, SameOutside, CString}
use free_micro_nix.Mem.Laws.{store-ok, write_self, write_ne}

-- The characters `cs` stand from `p` on, and none of them is NUL.
abbrev pub Chars : Mem → ℕ → List ℕ → Type 0
Chars m p [] = Unit {0}
Chars m p (c ∷ cs) = (m p ≡ some c) × (0 < c) × (c < 256) × Chars m (p + 1) cs

pub Chars-move :
    (cs : List ℕ) (m g : Mem) (p q : ℕ)
    → Chars m p cs
    → ((i : ℕ) → i < length cs → g (q + i) ≡ m (p + i))
    → Chars g q cs
Chars-move [] m g p q here same = tt
Chars-move (c ∷ cs) m g p q (here, low, high, rest) same = (
  simp add-zero at (same 0 (omega arith)) ∙ here,
  low,
  high,
  Chars-move cs m g (p + 1) (q + 1) rest
      λ i lt. rw (regroup q i, regroup p i) (same (i + 1) (omega arith)),
)
  where
    regroup : (a i : ℕ) → a + 1 + i ≡ a + (i + 1)
    regroup a i = omega arith

pub Chars-append :
    (ds cs : List ℕ) (m : Mem) (p : ℕ)
    → Chars m p ds
    → Chars m (p + length ds) cs
    → Chars m p (ds ++ cs)
Chars-append [] cs m p front back = rw add-zero at back
Chars-append (d ∷ ds) cs m p (here, low, high, rest) back =
    let shift : p + 1 + length ds ≡ p + suc (length ds) = omega arith in
    (here, low, high, Chars-append ds cs m (p + 1) rest (rw shift back))

pub Chars-CString :
    (cs : List ℕ) (m : Mem) (p : ℕ) → Chars m p cs → m (p + length cs) ≡ some 0 → CString m p cs
Chars-CString [] m p front end = rw add-zero at end
Chars-CString (c ∷ cs) m p (here, low, high, rest) end =
    let shift : p + 1 + length cs ≡ p + suc (length cs) = omega arith in
    (here, low, high, Chars-CString cs m (p + 1) rest (rw shift end))

pub CString-Chars :
    (cs : List ℕ) (m : Mem) (p : ℕ) → CString m p cs → Chars m p cs × (m (p + length cs) ≡ some 0)
CString-Chars [] m p end = (tt, rw add-zero end)
CString-Chars (c ∷ cs) m p (here, low, high, rest) =
    let (front, end) = CString-Chars cs m (p + 1) rest in
    let shift : p + suc (length cs) ≡ p + 1 + length cs = omega arith in
    ((here, low, high, front), rw shift end)

-- A character that stands is no end of an object.
pub Chars-ne : (cs : List ℕ) (m : Mem) (p i : ℕ) → Chars m p cs → i < length cs → m (p + i) ≢ none
Chars-ne [] m p i front lt = absurd (omega arith)
Chars-ne (c ∷ cs) m p zero (here, low, high, rest) lt = rw add-zero (ground (arith, here))
Chars-ne (c ∷ cs) m p (suc i) (here, low, high, rest) lt =
    let shift : p + suc i ≡ p + 1 + i = omega arith in
    rw shift (Chars-ne cs m (p + 1) i rest (omega arith))

-- From `m` to `g` the characters `cs` were written from `p` on, and nothing else.
pub record Wrote (m : Mem) (p : ℕ) (cs : List ℕ) (g : Mem) : Type 0 where
  pub text : Chars g p cs
  pub outside : SameOutside p (length cs) m g

pub Wrote-IsObject :
    {m g : Mem} {p : ℕ} (cs : List ℕ) (q n : ℕ) → Wrote m p cs g → IsObject m q n → IsObject g q n
Wrote-IsObject {m} {g} {p} cs q n w obj i lt =
    elim (Bool-cases (leb p (q + i) && ltb (q + i) (p + length cs))) [
      | inl inside ↦
          let at : q + i ≡ p + (q + i - p) = ground arith in
          rw at (Chars-ne cs g p (q + i - p) w.text (ground arith))
      | inr out ↦ rw (w.outside (q + i) (ground arith)) (obj i lt)
    ]

pub Wrote-append :
    {m g h : Mem} {p : ℕ} (cs ds : List ℕ)
    → Wrote m p cs g
    → Wrote g (p + length cs) ds h
    → Wrote m p (cs ++ ds) h
Wrote-append {m} {g} {h} {p} cs ds w v = record {
  text =
      Chars-append cs ds h p (Chars-move cs g h p p w.text λ i lt. v.outside (p + i) (omega arith))
        v.text;
  outside = λ a out.
      v.outside a (ground (arith, length-append cs ds))
      ∙ w.outside a (ground (arith, length-append cs ds));
}

-- One character.
pub store-Wrote :
    (m : Mem) (p c : ℕ)
    → m p ≢ none
    → 0 < c
    → c < 256
    → (store m p c ≡ ok (write m p c)) × Wrote m p (c ∷ []) (write m p c)
store-Wrote m p c obj low high = (
  store-ok m p c obj,
  record {
    text = (write_self m p c, low, high, tt);
    outside = λ a out. write_ne m p c a (omega arith);
  },
)

-- A text that was written with its terminator.
pub record Ended (m : Mem) (p : ℕ) (cs : List ℕ) (g : Mem) : Type 0 where
  pub text : CString g p cs
  pub outside : SameOutside p (suc (length cs)) m g

-- A NUL behind the text ends it.
pub store-Ended :
    (cs : List ℕ) {m g : Mem} (p e n : ℕ)
    → Wrote m p cs g
    → e ≡ p + length cs
    → IsObject m p n
    → length cs < n
    → (store g e 0 ≡ ok (write g e 0)) × Ended m p cs (write g e 0)
store-Ended cs {m} {g} p e n w at obj room = (
  store-ok g e 0 (rw at (Wrote-IsObject cs p n w obj (length cs) room)),
  record {
    text =
        Chars-CString cs (write g e 0) p
          (Chars-move cs g (write g e 0) p p w.text λ i lt. write_ne g e 0 (p + i) (omega arith))
          (rw (sym at) (write_self g e 0));
    outside = λ a out. write_ne g e 0 a (omega arith) ∙ w.outside a (omega arith);
  },
)

pub Chars-split :
    (ds cs : List ℕ) (m : Mem) (p : ℕ)
    → Chars m p (ds ++ cs)
    → Chars m p ds × Chars m (p + length ds) cs
Chars-split [] cs m p all = (tt, rw add-zero all)
Chars-split (d ∷ ds) cs m p (here, low, high, rest) =
    let (front, back) = Chars-split ds cs m (p + 1) rest in
    let shift : p + suc (length ds) ≡ p + 1 + length ds = omega arith in
    ((here, low, high, front), rw shift back)

-- The bytes of a string and its terminator belong to an object.
pub CString-ne :
    (cs : List ℕ) (m : Mem) (p i : ℕ) → CString m p cs → i < suc (length cs) → m (p + i) ≢ none
CString-ne cs m p i str lt =
    let (front, end) = CString-Chars cs m p str in
    elim (Bool-cases (ltb i (length cs))) [
      | inl in_text ↦ Chars-ne cs m p i front (ground arith)
      | inr at_end ↦ let same : i ≡ length cs = ground arith in rw same (ground (arith, end))
    ]

pub Ended-IsObject :
    {m g : Mem} {p : ℕ} (cs : List ℕ) (q n : ℕ) → Ended m p cs g → IsObject m q n → IsObject g q n
Ended-IsObject {m} {g} {p} cs q n w obj i lt =
    elim (Bool-cases (leb p (q + i) && ltb (q + i) (p + suc (length cs)))) [
      | inl inside ↦
          let at : q + i ≡ p + (q + i - p) = ground arith in
          rw at (CString-ne cs g p (q + i - p) w.text (ground arith))
      | inr out ↦ rw (w.outside (q + i) (ground arith)) (obj i lt)
    ]
