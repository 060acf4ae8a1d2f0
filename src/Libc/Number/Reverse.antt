-- ===== src/Libc/Number/Reverse.antt =====
-- libc/stdlib/strreverse.c.
pub mod Mirror
pub mod Backwards
use free_micro_nix.Base.{
  ℕ, zero, suc, ◌+◌, ◌-◌, bit_xor, ltb, ◌==◌, if◌then◌else◌, Run, ok, timeout, u8, ◌>>=◌,
}
use free_micro_nix.Mem.{Mem, load, store}
use free_micro_nix.Libc.Str.Scan.{strlen}

-- `*p ^= *q`
unfoldable pub xor_into : Mem → ℕ → ℕ → Run Mem
xor_into m p q = do x ← load m p; y ← load m q; store m p (u8 (bit_xor x y))

-- The body of the loop.
unfoldable pub exchange : Mem → ℕ → ℕ → Run Mem
unfolding xor_into
exchange m p1 p2 = do m ← xor_into m p1 p2; m ← xor_into m p2 p1; xor_into m p1 p2

-- `for (; p2 > p1; ++p1, --p2)`
unfoldable pub reverse_loop : ℕ → Mem → ℕ → ℕ → Run Mem
unfolding exchange
reverse_loop zero m p1 p2 = timeout
reverse_loop (suc f) m p1 p2 = do
  let rest = do m ← exchange m p1 p2; reverse_loop f m (p1 + 1) (p2 - 1)
  if ltb p1 p2 then rest else ok m

unfoldable pub strreverse : ℕ → Mem → ℕ → Run (Mem × ℕ)
unfolding reverse_loop
strreverse f m str = do
  let turned = do
    c ← load m str
    let rest = do n ← strlen f m str; m ← reverse_loop f m str (str + n - 1); ok (m, str)
    if c == 0 then ok (m, str) else rest
  if str == 0 then ok (m, str) else turned
