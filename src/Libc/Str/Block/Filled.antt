-- ===== src/Libc/Str/Block/Filled.antt =====
-- What memset leaves in memory.
use free_micro_nix.Base.{
  ℕ, zero, suc, ◌+◌, ◌%◌, ◌≤◌, ◌<◌, ◌≡◌, refl, ◌≢◌, ◌⊎◌, none, some, arith, Returns, Returns-bind,
  Returns-mono, u8,
}
use native.Mathlib.Nat.{add-zero}
use free_micro_nix.Mem.{Mem, write, IsObject}
use free_micro_nix.Mem.Laws.{write_self, write_ne, store-ok, IsObject-write}
use free_micro_nix.Libc.Str.Block.{fill, memset}

-- The `n` bytes from `p` on are all `v` in `g`, which differs from `m` nowhere else.
pub record Filled (m : Mem) (v p n : ℕ) (g : Mem) : Type 0 where
  pub inside : (i : ℕ) → i < n → g (p + i) ≡ some v
  pub outside : (a : ℕ) → (a < p) ⊎ (p + n ≤ a) → g a ≡ m a

Filled-step : {m g : Mem} {v p n : ℕ} → Filled (write m p v) v (p + 1) n g → Filled m v p (suc n) g
Filled-step {m} {g} {v} {p} {n} rest = record {
  inside = inside;
  outside = λ a q. ground (arith, rest.outside a, write_ne m p v a);
}
  where
    inside : (i : ℕ) → i < suc n → g (p + i) ≡ some v
    inside zero q = ground (arith, rest.outside (p + 0), write_self m p v)
    inside (suc i) q = rw (shift) (rest.inside i (omega arith))
      where
        shift : p + suc i ≡ p + 1 + i
        shift = omega arith

fill-Filled :
    (n : ℕ) (m : Mem) (p c : ℕ) → IsObject m p n → Returns (Filled m (u8 c) p n) (fill n m p c)
unfolding fill
fill-Filled zero m p c obj =
    (m, refl, record { inside = λ i q. absurd (omega arith); outside = λ a q. refl })
fill-Filled (suc n) m p c obj =
    rw (store-ok m p (u8 c) first)
      (Returns-mono (fill-Filled n (write m p (u8 c)) (p + 1) c rest) λ g f. Filled-step f)
  where
    first : m p ≢ none
    first = rw add-zero at (obj 0 (omega arith))

    rest : IsObject (write m p (u8 c)) (p + 1) n
    rest = IsObject-write m p (u8 c) (p + 1) n (λ i q. ground (arith, obj (suc i)))

-- Where the `n` bytes from `s` on belong to an object, `memset` ends in bounds, returns `s`, sets
-- them to `c` cut to a byte, and changes nothing else.
pub memset-Filled :
    (m : Mem) (s c n : ℕ)
    → IsObject m s n
    → Returns (λ (g, r). (r ≡ s) × Filled m (c % 256) s n g) (memset m s c n)
unfolding memset
memset-Filled m s c n obj = Returns-bind (fill-Filled n m s c obj) λ g f. ((g, s), refl, (refl, f))
