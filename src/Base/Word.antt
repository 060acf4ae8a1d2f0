-- ===== src/Base/Word.antt =====
-- Casts to the fixed widths of the C types, shifts and signs. A value of a w-bit type is the number
-- of its bit pattern.
use Prim.Native.Nat.{ℕ, ◌+◌, ◌-◌, ◌*◌, ◌/◌, ◌%◌, ◌^◌, compare, Ordering}

abbrev pub u8 : ℕ → ℕ
u8 n = n % 2 ^ 8

abbrev pub u16 : ℕ → ℕ
u16 n = n % 2 ^ 16

abbrev pub u32 : ℕ → ℕ
u32 n = n % 2 ^ 32

abbrev pub u64 : ℕ → ℕ
u64 n = n % 2 ^ 64

infixl 75 ◌<<◌ ◌>>◌
abbrev pub ◌<<◌ : ℕ → ℕ → ℕ
x << k = x * 2 ^ k

abbrev pub ◌>>◌ : ℕ → ℕ → ℕ
x >> k = x / 2 ^ k

-- A `char` promoted to `int`: the type is signed, so its sign bit is extended.
abbrev pub int_of_char : ℕ → ℕ
int_of_char c = elim (compare c 128) [ Ordering.lt ↦ c | _ ↦ c + 2 ^ 32 - 256 ]
