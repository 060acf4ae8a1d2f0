-- ===== src/Mem.antt =====
-- The memory that the C code reads and writes. The code is freestanding and has no allocator, so
-- memory is a map from addresses to bytes; an address that belongs to no object maps to `none`,
-- and an access to it is a fault.
pub mod Laws
pub mod Strings
pub mod Chars
use free_micro_nix.Base.{
  ℕ, ◌+◌, ◌≤◌, ◌<◌, ◌≡◌, ◌≢◌, ◌⊎◌, Option, none, some, List, [], ◌∷◌, ◌==◌, if◌then◌else◌, Run, ok,
  fault,
}

abbrev pub Mem : Type 0
Mem = ℕ → Option ℕ

unfoldable pub write : Mem → ℕ → ℕ → Mem
write m p v a = if a == p then some v else m a

-- `*p`
unfoldable pub load : Mem → ℕ → Run ℕ
load m p = elim (m p) [ none ↦ fault | some v ↦ ok v ]

-- `*p = v`, for a `v` of type `char`
unfoldable pub store : Mem → ℕ → ℕ → Run Mem
store m p v = elim (m p) [ none ↦ fault | some _ ↦ ok (write m p v) ]

-- The `n` addresses from `p` on belong to an object.
abbrev pub IsObject : Mem → ℕ → ℕ → Type 0
IsObject m p n = (i : ℕ) → i < n → m (p + i) ≢ none

-- `g` differs from `m` at most at the `n` addresses from `p` on.
abbrev pub SameOutside : ℕ → ℕ → Mem → Mem → Type 0
SameOutside p n m g = (a : ℕ) → (a < p) ⊎ (p + n ≤ a) → g a ≡ m a

-- The bytes `cs` stand from `p` on, none of them is NUL, and a NUL stands behind them.
abbrev pub CString : Mem → ℕ → List ℕ → Type 0
CString m p [] = m p ≡ some 0
CString m p (c ∷ cs) = (m p ≡ some c) × (0 < c) × (c < 256) × CString m (p + 1) cs

-- The bytes `xs` from `p` on.
abbrev pub Bytes : Mem → ℕ → List ℕ → Type 0
Bytes m p [] = Unit
Bytes m p (x ∷ xs) = (m p ≡ some x) × Bytes m (p + 1) xs
