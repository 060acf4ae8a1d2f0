-- ===== src/Libc/Number/Format.antt =====
-- libc/stdlib/uitoa.c, u64toa.c, itoa.c, atoi.c, abs.c.
pub mod Digits
pub mod Unsigned
pub mod Signed
pub mod Parsed
pub mod Roundtrip
use free_micro_nix.Base.{
  ℕ, zero, suc, ◌+◌, ◌-◌, ◌*◌, ◌/◌, ◌%◌, ◌^◌, ◌≤◌, ◌<◌, bit_and, bit_or, bit_xor, ◌≡◌, refl, sym,
  ap, ◌∙◌, ◌≢◌, ◌↔◌, ◌⊎◌, inl, inr, Bool, true, false, not, ◌&&◌, ◌||◌, Option, none, some, List,
  [], ◌∷◌, ◌++◌, map, arith, ltb, leb, ◌==◌, if◌then◌else◌, ltb→lt, lt→ltb, ==_iff, Bool-cases,
  length, get_elem?, get_elem?-lt, length-append, set, length-set, get_elem?-set, Run, ◌>>=◌,
  Returns, Returns-bind, Returns-mono, Returns-both, ok, fault, timeout, u8, u16, u32, u64, ◌<<◌,
  ◌>>◌, int_of_char, ℤ, sub_ℕ, is_neg, is_zero, pos, negsuc,
}
use free_micro_nix.Mem.{Mem, load, store}
use free_micro_nix.Libc.Str.Scan.{strlen}
use free_micro_nix.Libc.Number.Numeral.{digit_char}
use free_micro_nix.Libc.Number.Reverse.{strreverse}

-- `do { *wstr++ = num[val % base]; if (min > 0) min--; } while (val /= base);`: the memory, `wstr` and
-- `min` behind it. A `min` below 0 acts as 0 does.
unfoldable pub put_digits : ℕ → Mem → ℕ → ℕ → ℕ → ℕ → Run (Mem × ℕ × ℕ)
put_digits zero m wstr val base min = timeout
put_digits (suc f) m wstr val base min = do
  m ← store m wstr (digit_char (val % base))
  let rest = put_digits f m (wstr + 1) (val / base) base (min - 1)
  if val / base == 0 then ok (m, wstr + 1, min - 1) else rest

-- `while (min > 0) { *wstr++ = '0'; min--; }`
unfoldable pub put_zeros : ℕ → Mem → ℕ → Run (Mem × ℕ)
put_zeros zero m wstr = ok (m, wstr)
put_zeros (suc min) m wstr = do m ← store m wstr b'0'; put_zeros min m (wstr + 1)

-- `base` and `min` are given as numbers from 0 on.
unfoldable pub u64toa : ℕ → Mem → ℕ → ℕ → ℕ → ℕ → Run (Mem × ℕ)
unfolding put_digits put_zeros
u64toa f m buf val base min = do
  let refused = do m ← store m buf 0; ok (m, buf)
  let written = do
    (m, wstr, min) ← put_digits f m buf val base min
    (m, wstr) ← put_zeros min m wstr
    m ← store m wstr 0
    (m, _) ← strreverse f m buf
    ok (m, buf)
  if ltb base 2 || ltb 16 base then refused else written

-- The same code, for an `unsigned int`.
unfoldable pub uitoa : ℕ → Mem → ℕ → ℕ → ℕ → ℕ → Run (Mem × ℕ)
unfolding put_digits put_zeros
uitoa f m buf val base min = do
  let refused = do m ← store m buf 0; ok (m, buf)
  let written = do
    (m, wstr, min) ← put_digits f m buf (u32 val) base min
    (m, wstr) ← put_zeros min m wstr
    m ← store m wstr 0
    (m, _) ← strreverse f m buf
    ok (m, buf)
  if ltb base 2 || ltb 16 base then refused else written

-- An `int`, given by its 32-bit pattern, as a `uint64_t`
abbrev pub sign_extend : ℕ → ℕ
sign_extend v = if ltb v (2 ^ 31) then v else v + (2 ^ 64 - 2 ^ 32)

-- The `while` at the end of itoa.
unfoldable pub swap_loop : ℕ → Mem → ℕ → ℕ → Run Mem
swap_loop zero m p1 p2 = timeout
swap_loop (suc f) m p1 p2 = do
  let rest = do
    tmp ← load m p1
    c ← load m p2
    m ← store m p1 c
    m ← store m p2 tmp
    swap_loop f m (p1 + 1) (p2 - 1)
  if ltb p1 p2 then rest else ok m

-- The part of itoa behind the choice of the divisor.
unfoldable pub itoa_digits : ℕ → Mem → ℕ → ℕ → ℕ → Run (Mem × ℕ)
unfolding put_digits swap_loop
itoa_digits f m str ud divisor = do
  (m, p, _) ← put_digits f m str ud divisor 0
  m ← store m p 0
  m ← swap_loop f m str (p - 1)
  ok (m, p)

unfoldable pub itoa : ℕ → Mem → ℕ → ℕ → ℕ → Run (Mem × ℕ)
unfolding itoa_digits
itoa f m val str base = do
  let negative = do
    m ← store m str b'-'
    itoa_digits f m (str + 1) (sign_extend (u32 (2 ^ 32 - val))) 10
  let hexadecimal = itoa_digits f m str (sign_extend val) 16
  let decimal = itoa_digits f m str (sign_extend val) 10
  if (base == b'd' || base == 10) && leb (2 ^ 31) val
      then negative
      else (if base == b'x' || base == 16 then hexadecimal else decimal)

-- `for (i = len; i > 0; --i) { out += (str[i-1] - 48) * pow; pow *= 10; }`, in 32 bits
unfoldable pub atoi_loop : ℕ → Mem → ℕ → ℕ → ℕ → Run ℕ
atoi_loop zero m str out pow = ok out
atoi_loop (suc i) m str out pow = do
  c ← load m (str + i)
  atoi_loop i m str (u32 (out + u32 (int_of_char c + (2 ^ 32 - 48)) * pow)) (u32 (pow * 10))

unfoldable pub atoi : ℕ → Mem → ℕ → Run ℕ
unfolding atoi_loop
atoi f m str = do len ← strlen f m str; atoi_loop len m str 0 1

-- An `int` by its 32-bit pattern
unfoldable pub abs : ℕ → ℕ
abs val = if leb (2 ^ 31) val then u32 (2 ^ 32 - val) else val
