-- ===== src/Libc/Str/Find.antt =====
-- libc/string/strstr.c.
pub mod Laws
use free_micro_nix.Base.{ℕ, zero, suc, ◌+◌, ◌==◌, if◌then◌else◌, Run, ok, timeout, is_zero, ◌>>=◌}
use free_micro_nix.Mem.{Mem, load}
use free_micro_nix.Libc.Str.Scan.{strlen}
use free_micro_nix.Libc.Str.Compare.{memcmp}

-- `while (*s1) if (!memcmp(s1++, s2, n)) return s1 - 1;`
unfoldable pub strstr_loop : ℕ → Mem → ℕ → ℕ → ℕ → Run ℕ
strstr_loop zero m s1 s2 n = timeout
strstr_loop (suc f) m s1 s2 n = do
  c ← load m s1
  let rest = do
    d ← memcmp n m s1 s2
    let next = strstr_loop f m (s1 + 1) s2 n
    if is_zero d then ok s1 else next
  if c == 0 then ok 0 else rest

unfoldable pub strstr : ℕ → Mem → ℕ → ℕ → Run ℕ
unfolding strstr_loop
strstr f m s1 s2 = do n ← strlen f m s2; strstr_loop f m s1 s2 n
