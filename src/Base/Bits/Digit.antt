-- ===== src/Base/Bits/Digit.antt =====
-- The lowest binary digit of `&`, `|` and `^`. The native operations stand for a recursion on digits
-- with fuel; here the fuel is gone.
use Prim.Native.Nat.{
  ℕ, zero, suc, ◌+◌, ◌*◌, ◌/◌, ◌%◌, ◌≤◌, ◌<◌, min, max, differ, digits, bitwise, bit_and, bit_or,
  bit_xor, bit_and-bitwise, bit_or-bitwise, bit_xor-bitwise,
}
use mathlib.Core.Path.{◌≡◌, refl}
use native.Mathlib.Omega.{arith}

module _ (rest : ℕ → ℕ) (digit : ℕ → ℕ → ℕ) where
  -- More fuel than the first number is large changes nothing.
  enough : (n k a b : ℕ) → a ≤ n → a ≤ k → digits rest digit n a b ≡ digits rest digit k a b
  enough zero zero zero b h h' = refl
  enough zero (suc k) zero b h h' = refl
  enough (suc n) zero zero b h h' = refl
  enough (suc n) (suc k) zero b h h' = refl
  enough zero k (suc a) b h h' = absurd (omega arith)
  enough (suc n) zero (suc a) b h h' = absurd (omega arith)
  enough (suc n) (suc k) (suc a) b h h' =
      omega (arith, enough n k (suc a / 2) (b / 2) (omega arith) (omega arith))

  unroll :
      (a b : ℕ)
      → bitwise rest digit (suc a) b
        ≡ bitwise rest digit (suc a / 2) (b / 2) * 2 + digit (suc a % 2) (b % 2)
  unroll a b = omega (arith, enough a (suc a / 2) (suc a / 2) (b / 2) (omega arith) (omega arith))

differ_parity : (x y : ℕ) → x < 2 → y < 2 → differ x y ≡ (x + y) % 2
differ_parity zero zero h k = refl
differ_parity zero (suc zero) h k = refl
differ_parity (suc zero) zero h k = refl
differ_parity (suc zero) (suc zero) h k = refl
differ_parity zero (suc (suc y)) h k = absurd (omega arith)
differ_parity (suc zero) (suc (suc y)) h k = absurd (omega arith)
differ_parity (suc (suc x)) y h k = absurd (omega arith)

pub bit_and_digit : (a b : ℕ) → bit_and a b ≡ bit_and (a / 2) (b / 2) * 2 + min (a % 2) (b % 2)
bit_and_digit zero b = omega (arith, bit_and-bitwise 0 b, bit_and-bitwise 0 (b / 2))
bit_and_digit (suc a) b =
    omega (
      arith,
      bit_and-bitwise (suc a) b,
      bit_and-bitwise (suc a / 2) (b / 2),
      unroll (λ c. 0) min a b,
    )

pub bit_or_digit : (a b : ℕ) → bit_or a b ≡ bit_or (a / 2) (b / 2) * 2 + max (a % 2) (b % 2)
bit_or_digit zero b = omega (arith, bit_or-bitwise 0 b, bit_or-bitwise 0 (b / 2))
bit_or_digit (suc a) b =
    omega
      (arith, bit_or-bitwise (suc a) b, bit_or-bitwise (suc a / 2) (b / 2), unroll (λ c. c) max a b)

pub bit_xor_digit : (a b : ℕ) → bit_xor a b ≡ bit_xor (a / 2) (b / 2) * 2 + (a % 2 + b % 2) % 2
bit_xor_digit zero b = omega (arith, bit_xor-bitwise 0 b, bit_xor-bitwise 0 (b / 2))
bit_xor_digit (suc a) b = omega (
  arith,
  bit_xor-bitwise (suc a) b,
  bit_xor-bitwise (suc a / 2) (b / 2),
  unroll (λ c. c) differ a b,
  differ_parity (suc a % 2) (b % 2) (omega arith) (omega arith),
)
