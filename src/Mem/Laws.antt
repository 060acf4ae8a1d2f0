-- ===== src/Mem/Laws.antt =====
-- Writes to memory.
use free_micro_nix.Base.{ℕ, suc, ◌+◌, ◌-◌, ◌≤◌, ◌≡◌, refl, ◌≢◌, Option, none, some, arith, ok}
use native.Mathlib.Nat.{add-zero}
use free_micro_nix.Mem.{Mem, load, store, write, IsObject}

pub write_self : (m : Mem) (p v : ℕ) → write m p v p ≡ some v
unfolding write
write_self m p v = ground arith

pub write_ne : (m : Mem) (p v a : ℕ) → a ≢ p → write m p v a ≡ m a
unfolding write
write_ne m p v a ne = ground arith

-- A write keeps every object.
pub IsObject-write : (m : Mem) (p v q n : ℕ) → IsObject m q n → IsObject (write m p v) q n
unfolding write
IsObject-write m p v q n obj i lt = ground (arith, obj i lt)

pub value_of : (o : Option ℕ) → o ≢ none → (v : ℕ) × (o ≡ some v)
value_of none ne = absurd (ne refl)
value_of (some v) ne = (v, refl)

pub load-ok : (m : Mem) (p : ℕ) {v : ℕ} → m p ≡ some v → load m p ≡ ok v
unfolding load
load-ok m p e = ground arith

pub store-ok : (m : Mem) (p v : ℕ) → m p ≢ none → store m p v ≡ ok (write m p v)
unfolding store
store-ok m p v h = ground arith

pub IsObject-first : (m : Mem) (p n : ℕ) → IsObject m p (suc n) → m p ≢ none
IsObject-first m p n obj = rw add-zero at (obj 0 (omega arith))

pub IsObject-rest : (m : Mem) (p n : ℕ) → IsObject m p (suc n) → IsObject m (p + 1) n
IsObject-rest m p n obj i lt =
    let shift : p + 1 + i ≡ p + suc i = omega arith in rw shift (obj (suc i) (omega arith))

-- A part of an object.
pub IsObject-part :
    (m : Mem) (p n q k : ℕ) → IsObject m p n → p ≤ q → q + k ≤ p + n → IsObject m q k
IsObject-part m p n q k obj low high i lt =
    let at : q + i ≡ p + (q - p + i) = omega arith in rw at (obj (q - p + i) (omega arith))
