-- ===== src/Mem/Strings.antt =====
-- Strings in memory: what keeps one, and what copies one.
use free_micro_nix.Base.{ℕ, suc, ◌+◌, ◌≤◌, ◌<◌, ◌≡◌, ◌∙◌, ◌⊎◌, List, [], ◌∷◌, ◌++◌, arith, length}
use native.Mathlib.Nat.{add-zero}
use free_micro_nix.Mem.{Mem, write, CString}
use free_micro_nix.Mem.Laws.{write_ne}

-- A string stands wherever its bytes and its terminator stand.
pub CString-move :
    (cs : List ℕ) (m g : Mem) (p q : ℕ)
    → CString m p cs
    → ((i : ℕ) → i < suc (length cs) → g (q + i) ≡ m (p + i))
    → CString g q cs
CString-move [] m g p q str same = simp add-zero at (same 0 (omega arith)) ∙ str
CString-move (c ∷ cs) m g p q (here, low, high, rest) same = (
  simp add-zero at (same 0 (omega arith)) ∙ here,
  low,
  high,
  CString-move cs m g (p + 1) (q + 1) rest
      λ i lt. rw (regroup q i, regroup p i) (same (i + 1) (omega arith)),
)
  where
    regroup : (a i : ℕ) → a + 1 + i ≡ a + (i + 1)
    regroup a i = omega arith

pub CString-same :
    (cs : List ℕ) (m g : Mem) (p : ℕ)
    → CString m p cs
    → ((a : ℕ) → p ≤ a → a < p + suc (length cs) → g a ≡ m a)
    → CString g p cs
CString-same cs m g p str same =
    CString-move cs m g p p str λ i lt. same (p + i) (omega arith) (omega arith)

-- A write elsewhere keeps a string.
pub CString-write :
    (cs : List ℕ) (m : Mem) (p a v : ℕ)
    → CString m p cs
    → (a < p) ⊎ (p + length cs < a)
    → CString (write m a v) p cs
CString-write cs m p a v str out =
    CString-same cs m (write m a v) p str λ b low high. write_ne m a v b (omega arith)

-- Two strings behind one another, the first without its terminator.
pub CString-append :
    (ds cs : List ℕ) (m g : Mem) (p : ℕ)
    → CString m p ds
    → ((a : ℕ) → p ≤ a → a < p + length ds → g a ≡ m a)
    → CString g (p + length ds) cs
    → CString g p (ds ++ cs)
CString-append [] cs m g p str same tail = rw add-zero at tail
CString-append (d ∷ ds) cs m g p (here, low, high, rest) same tail = (
  same p (omega arith) (omega arith) ∙ here,
  low,
  high,
  CString-append ds cs m g (p + 1) rest (λ a l h. same a (omega arith) (omega arith))
      (rw regroup tail),
)
  where
    regroup : p + 1 + length ds ≡ p + suc (length ds)
    regroup = omega arith
