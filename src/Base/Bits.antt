-- ===== src/Base/Bits.antt =====
-- Laws of `&`, `|` and `^` at variables, from the law of the lowest binary digit.
mod Digit
pub use Digit.{bit_and_digit, bit_or_digit, bit_xor_digit}
use Prim.Native.Nat.{ℕ, zero, suc, ◌+◌, ◌-◌, ◌*◌, ◌/◌, ◌%◌, ◌^◌, ◌≤◌, ◌<◌, bit_and, bit_or, bit_xor}
use Prim.Native.Nat.{bit_or-bitwise}
use mathlib.Core.Path.{◌≡◌, refl, ap}
use native.Mathlib.Nat.{pow-suc, one-le-pow, mul-one, add-zero}
use native.Mathlib.Omega.{arith}

-- The bound only gives the recursion something to fall.
bit_and-zero_below : (n a : ℕ) → a ≤ n → bit_and a 0 ≡ 0
bit_and-zero_below n zero h = refl
bit_and-zero_below zero (suc a) h = absurd (omega arith)
bit_and-zero_below (suc n) (suc a) h =
    omega (arith, bit_and_digit (suc a) 0, bit_and-zero_below n (suc a / 2) (omega arith))

bit_or-zero_below : (n a : ℕ) → a ≤ n → bit_or a 0 ≡ a
bit_or-zero_below n zero h = refl
bit_or-zero_below zero (suc a) h = absurd (omega arith)
bit_or-zero_below (suc n) (suc a) h =
    omega (arith, bit_or_digit (suc a) 0, bit_or-zero_below n (suc a / 2) (omega arith))

pub bit_and-zero : (a : ℕ) → bit_and a 0 ≡ 0
bit_and-zero a = bit_and-zero_below a a (omega arith)

pub bit_or-zero : (a : ℕ) → bit_or a 0 ≡ a
bit_or-zero a = bit_or-zero_below a a (omega arith)

bit_and_low : (k q r : ℕ) → r < 2 ^ k → bit_and (q * 2 ^ k + r) (2 ^ k - 1) ≡ r
bit_and_low zero q r fits = rw bit_and-zero (omega arith)
bit_and_low (suc k) q r fits = ground (
  arith,
  bit_and_digit (q * 2 ^ suc k + r) (2 ^ suc k - 1),
  ap (λ (t : ℕ). q * t) (pow-suc 2 k),
  pow-suc 2 k,
  one-le-pow k 2,
  bit_and_low k q (r / 2),
)

-- `x & (2^k - 1)` keeps the low `k` bits.
pub bit_and_mask : (k a : ℕ) → bit_and a (2 ^ k - 1) ≡ a % 2 ^ k
bit_and_mask k a = ground (arith, one-le-pow k 2, bit_and_low k (a / 2 ^ k) (a % 2 ^ k))

-- `(q << k) | r` is a sum if `r` has at most `k` bits.
pub bit_or_fields : (k q r : ℕ) → r < 2 ^ k → bit_or (q * 2 ^ k) r ≡ q * 2 ^ k + r
bit_or_fields zero q r fits = ground (arith, bit_or-zero q)
bit_or_fields (suc k) q r fits = ground (
  arith,
  bit_or_digit (q * 2 ^ suc k) r,
  ap (λ (t : ℕ). q * t) (pow-suc 2 k),
  pow-suc 2 k,
  bit_or_fields k q (r / 2),
)

-- The same with the fields in the other order.
pub bit_or_low : (k q r : ℕ) → r < 2 ^ k → bit_or r (q * 2 ^ k) ≡ q * 2 ^ k + r
bit_or_low zero q zero fits = omega (arith, bit_or-bitwise 0 (q * 2 ^ 0))
bit_or_low zero q (suc r) fits = absurd (omega arith)
bit_or_low (suc k) q r fits = ground (
  arith,
  bit_or_digit r (q * 2 ^ suc k),
  ap (λ (t : ℕ). q * t) (pow-suc 2 k),
  pow-suc 2 k,
  bit_or_low k q (r / 2),
)

-- The low field stays out of it where the other number has none.
pub bit_or_shifted :
    (k a b r : ℕ) → r < 2 ^ k → bit_or (a * 2 ^ k + r) (b * 2 ^ k) ≡ bit_or a b * 2 ^ k + r
bit_or_shifted zero a b zero fits = rw (mul-one a) (rw (mul-one b) (rw (add-zero a) (omega arith)))
bit_or_shifted zero a b (suc r) fits = absurd (omega arith)
bit_or_shifted (suc k) a b r fits = ground (
  arith,
  bit_or_digit (a * 2 ^ suc k + r) (b * 2 ^ suc k),
  ap (λ (t : ℕ). a * t) (pow-suc 2 k),
  ap (λ (t : ℕ). b * t) (pow-suc 2 k),
  ap (λ (t : ℕ). bit_or a b * t) (pow-suc 2 k),
  pow-suc 2 k,
  bit_or_shifted k a b (r / 2),
)

-- A number whose bits are all set takes up any other.
pub bit_or_ones : (k b : ℕ) → b < 2 ^ k → bit_or (2 ^ k - 1) b ≡ 2 ^ k - 1
bit_or_ones zero zero fits = omega (arith, bit_or-zero 0)
bit_or_ones zero (suc b) fits = absurd (omega arith)
bit_or_ones (suc k) b fits =
    ground
      (arith, bit_or_digit (2 ^ suc k - 1) b, pow-suc 2 k, one-le-pow k 2, bit_or_ones k (b / 2))

-- `x & (1 << k)` keeps the bit `k`, here the lowest one of `q`.
pub bit_and_one : (k q r : ℕ) → r < 2 ^ k → bit_and (q * 2 ^ k + r) (2 ^ k) ≡ q % 2 * 2 ^ k
bit_and_one zero q r fits = omega (arith, bit_and_mask 1 (q * 2 ^ 0 + r))
bit_and_one (suc k) q r fits = ground (
  arith,
  bit_and_digit (q * 2 ^ suc k + r) (2 ^ suc k),
  ap (λ (t : ℕ). q * t) (pow-suc 2 k),
  ap (λ (t : ℕ). q % 2 * t) (pow-suc 2 k),
  pow-suc 2 k,
  bit_and_one k q (r / 2),
)

-- `x & 0xF0` for a byte `x`.
pub bit_and_high_nibble : (x : ℕ) → x < 256 → bit_and x 0xF0 ≡ x / 16 * 16
bit_and_high_nibble x h = ground (
  arith,
  bit_and_digit x 0xF0,
  bit_and_digit (x / 2) 0x78,
  bit_and_digit (x / 2 / 2) 0x3C,
  bit_and_digit (x / 2 / 2 / 2) 0x1E,
  bit_and_mask 4 (x / 2 / 2 / 2 / 2),
)

-- The two steps by which an exclusive or is undone.
bit_xor_back_below : (n a b : ℕ) → a ≤ n → b ≤ n → bit_xor b (bit_xor a b) ≡ a
bit_xor_back_below n zero zero h k = refl
bit_xor_back_below zero (suc a) b h k = absurd (omega arith)
bit_xor_back_below zero a (suc b) h k = absurd (omega arith)
bit_xor_back_below (suc n) a b h k = ground (
  arith,
  bit_xor_digit a b,
  bit_xor_digit b (bit_xor a b),
  bit_xor_back_below n (a / 2) (b / 2) (omega arith) (omega arith),
)

bit_xor_swap_below : (n a b : ℕ) → a ≤ n → b ≤ n → bit_xor (bit_xor a b) a ≡ b
bit_xor_swap_below n zero zero h k = refl
bit_xor_swap_below zero (suc a) b h k = absurd (omega arith)
bit_xor_swap_below zero a (suc b) h k = absurd (omega arith)
bit_xor_swap_below (suc n) a b h k = ground (
  arith,
  bit_xor_digit a b,
  bit_xor_digit (bit_xor a b) a,
  bit_xor_swap_below n (a / 2) (b / 2) (omega arith) (omega arith),
)

pub bit_xor_back : (a b : ℕ) → bit_xor b (bit_xor a b) ≡ a
bit_xor_back a b = bit_xor_back_below (a + b) a b (omega arith) (omega arith)

pub bit_xor_swap : (a b : ℕ) → bit_xor (bit_xor a b) a ≡ b
bit_xor_swap a b = bit_xor_swap_below (a + b) a b (omega arith) (omega arith)

bit_xor-lt_pow : (k a b : ℕ) → a < 2 ^ k → b < 2 ^ k → bit_xor a b < 2 ^ k
bit_xor-lt_pow zero zero zero h h' = omega arith
bit_xor-lt_pow zero (suc a) b h h' = absurd (omega arith)
bit_xor-lt_pow zero a (suc b) h h' = absurd (omega arith)
bit_xor-lt_pow (suc k) a b h h' = omega (
  arith,
  pow-suc 2 k,
  bit_xor_digit a b,
  bit_xor-lt_pow k (a / 2) (b / 2) (omega (arith, pow-suc 2 k)) (omega (arith, pow-suc 2 k)),
)

pub bit_xor-lt : (a b : ℕ) → a < 256 → b < 256 → bit_xor a b < 256
bit_xor-lt = bit_xor-lt_pow 8

bit_or-lt_pow : (k a b : ℕ) → a < 2 ^ k → b < 2 ^ k → bit_or a b < 2 ^ k
bit_or-lt_pow zero zero zero h h' = omega arith
bit_or-lt_pow zero (suc a) b h h' = absurd (omega arith)
bit_or-lt_pow zero a (suc b) h h' = absurd (omega arith)
bit_or-lt_pow (suc k) a b h h' = omega (
  arith,
  pow-suc 2 k,
  bit_or_digit a b,
  bit_or-lt_pow k (a / 2) (b / 2) (omega (arith, pow-suc 2 k)) (omega (arith, pow-suc 2 k)),
)

pub bit_or-lt : (a b : ℕ) → a < 256 → b < 256 → bit_or a b < 256
bit_or-lt = bit_or-lt_pow 8
