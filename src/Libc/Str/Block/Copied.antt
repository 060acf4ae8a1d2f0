-- ===== src/Libc/Str/Block/Copied.antt =====
-- What memcpy, memmove and memset leave in memory.
use free_micro_nix.Base.{
  ℕ, zero, suc, ◌+◌, ◌≤◌, ◌<◌, ◌≡◌, refl, ◌⊎◌, inl, inr, some, arith, ltb, ltb→lt, Bool-cases,
  Returns, Returns-bind, Returns-mono,
}
use native.Mathlib.Nat.{add_assoc, add-zero}
use free_micro_nix.Mem.{Mem, write, IsObject}
use free_micro_nix.Mem.Laws.{write_self, write_ne, load-ok, store-ok, IsObject-write, value_of}
use free_micro_nix.Libc.Str.Block.{copy_up, memcpy, move_up, move_down, memmove}

-- The bytes of `m` at `[src + lo, src + hi)` stand in `g` at the same offsets from `dst`, and `g`
-- differs from `m` nowhere else.
pub record Copied (m : Mem) (dst src lo hi : ℕ) (g : Mem) : Type 0 where
  pub inside : (i : ℕ) → lo ≤ i → i < hi → g (dst + i) ≡ m (src + i)
  pub outside : (a : ℕ) → (a < dst + lo) ⊎ (dst + hi ≤ a) → g a ≡ m a

module _ {dst src : ℕ} where
  Copied-up :
      {m g : Mem} {i c size : ℕ}
      → dst ≤ src ⊎ (src + size ≤ dst)
      → i < size
      → m (src + i) ≡ some c
      → Copied (write m (dst + i) c) dst src (i + 1) size g
      → Copied m dst src i size g
  Copied-up {m} {g} {i} {c} {size} apart lt read rest = record {
    inside = λ j p q. ground (
      arith,
      rest.inside j,
      rest.outside (dst + j),
      write_self m (dst + i) c,
      write_ne m (dst + i) c (src + j),
    );
    outside = λ a p. ground (arith, rest.outside a, write_ne m (dst + i) c a);
  }

  Copied-down :
      {m g : Mem} {i c : ℕ}
      → src ≤ dst
      → m (src + i) ≡ some c
      → Copied (write m (dst + i) c) dst src 0 i g
      → Copied m dst src 0 (suc i) g
  Copied-down {m} {g} {i} {c} le read rest = record {
    inside = λ j p q. ground (
      arith,
      rest.inside j,
      rest.outside (dst + j),
      write_self m (dst + i) c,
      write_ne m (dst + i) c (src + j),
    );
    outside = λ a p. ground (arith, rest.outside a, write_ne m (dst + i) c a);
  }

  move_up-Copied :
      (left i size : ℕ) (m : Mem)
      → dst ≤ src ⊎ (src + size ≤ dst)
      → i + left ≡ size
      → IsObject m src size
      → IsObject m dst size
      → Returns (Copied m dst src i size) (move_up left i m dst src)
  unfolding move_up
  move_up-Copied zero i size m lt e from to =
      (m, refl, record { inside = λ j p q. absurd (omega arith); outside = λ a p. refl })
  move_up-Copied (suc left) i size m lt e from to =
      let (c, read) = value_of (m (src + i)) (from i (omega arith)) in
      rw (load-ok m (src + i) read, store-ok m (dst + i) c (to i (omega arith)))
        (Returns-mono
          (move_up-Copied left (i + 1) size (write m (dst + i) c) lt (omega arith)
            (IsObject-write m (dst + i) c src size from) (IsObject-write m (dst + i) c dst size to))
          λ g rest. Copied-up lt (omega arith) read rest)

  move_down-Copied :
      (i : ℕ) (m : Mem)
      → src ≤ dst
      → IsObject m src i
      → IsObject m dst i
      → Returns (Copied m dst src 0 i) (move_down i m dst src)
  unfolding move_down
  move_down-Copied zero m le from to =
      (m, refl, record { inside = λ j p q. absurd (omega arith); outside = λ a p. refl })
  move_down-Copied (suc i) m le from to =
      let (c, read) = value_of (m (src + i)) (from i (omega arith)) in
      rw (load-ok m (src + i) read, store-ok m (dst + i) c (to i (omega arith)))
        (Returns-mono
          (move_down-Copied i (write m (dst + i) c) le
            (IsObject-write m (dst + i) c src i (λ j lt. from j (omega arith)))
            (IsObject-write m (dst + i) c dst i (λ j lt. to j (omega arith))))
          λ g rest. Copied-down le read rest)

-- memcpy's loop does what memmove's upward loop does.
copy_up-eq-move_up :
    (n i : ℕ) (m : Mem) (dst src : ℕ) → copy_up n m (dst + i) (src + i) ≡ move_up n i m dst src
unfolding copy_up move_up
copy_up-eq-move_up zero i m dst src = refl
copy_up-eq-move_up (suc n) i m dst src =
    simp (add_assoc, λ (k : Mem). copy_up-eq-move_up n (i + 1) k dst src)

-- Where both regions of `size` bytes belong to objects, `memmove` ends in bounds, returns `dst`,
-- and copies all bytes as they were before the call, however the regions overlap; nothing else
-- changes.
pub memmove-Copied :
    (m : Mem) (dst src size : ℕ)
    → IsObject m src size
    → IsObject m dst size
    → Returns (λ (g, r). (r ≡ dst) × Copied m dst src 0 size g) (memmove m dst src size)
unfolding memmove
memmove-Copied m dst src size from to = elim (Bool-cases (ltb dst src)) [
  | inl up ↦ rw up (
      Returns-bind
        (move_up-Copied size 0 size m (inl (omega (arith, ltb→lt dst src up))) (omega arith) from
          to)
        λ g done. ((g, dst), refl, (refl, done)))
  | inr down ↦ rw down (
      Returns-bind (move_down-Copied size m (ground arith) from to)
        λ g done. ((g, dst), refl, (refl, done)))
]

-- Where both regions of `n` bytes belong to objects, and do not overlap or `dest` lies at or
-- below `src`, `memcpy` ends in bounds, returns `dest`, and copies all bytes, changing nothing
-- else.
pub memcpy-Copied :
    (m : Mem) (dest src n : ℕ)
    → dest ≤ src ⊎ (src + n ≤ dest)
    → IsObject m src n
    → IsObject m dest n
    → Returns (λ (g, r). (r ≡ dest) × Copied m dest src 0 n g) (memcpy m dest src n)
unfolding memcpy
memcpy-Copied m dest src n apart from to =
    let as_move = simp add-zero at (copy_up-eq-move_up n 0 m dest src) in
    rw as_move (
      Returns-bind (move_up-Copied n 0 n m apart (omega arith) from to)
        λ g done. ((g, dest), refl, (refl, done)))
