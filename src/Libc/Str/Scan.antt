-- ===== src/Libc/Str/Scan.antt =====
-- libc/string/strlen.c, lfind.c, strchr.c. Each loop takes fuel, one unit for a round.
pub mod Laws
use free_micro_nix.Base.{ℕ, zero, suc, ◌+◌, true, false, ◌==◌, Run, ok, timeout, u8, ◌>>=◌}
use free_micro_nix.Mem.{Mem, load}

-- `for (i = 0; s[i] != '\0'; i++) ;`
unfoldable pub strlen_loop : ℕ → Mem → ℕ → ℕ → Run ℕ
strlen_loop zero m s i = timeout
strlen_loop (suc f) m s i = do
  c ← load m (s + i)
  elim (c == 0) [ true ↦ ok i | false ↦ strlen_loop f m s (i + 1) ]

unfoldable pub strlen : ℕ → Mem → ℕ → Run ℕ
unfolding strlen_loop
strlen f m s = strlen_loop f m s 0

unfoldable pub lfind_loop : ℕ → Mem → ℕ → ℕ → ℕ → Run ℕ
lfind_loop zero m str accept i = timeout
lfind_loop (suc f) m str accept i = do
  c ← load m (str + i)
  elim (c == accept) [ true ↦ ok i | false ↦ lfind_loop f m str accept (i + 1) ]

-- The address is cast to `size_t` before `i` is added; it is the same number.
unfoldable pub lfind : ℕ → Mem → ℕ → ℕ → Run ℕ
unfolding lfind_loop
lfind f m str accept = do i ← lfind_loop f m str accept 0; ok (str + i)

-- `c` is an `int`, given by its 32-bit pattern; 0 is the null pointer.
unfoldable pub strchr : ℕ → Mem → ℕ → ℕ → Run ℕ
strchr zero m s c = timeout
strchr (suc f) m s c = do
  x ← load m s
  elim (x == u8 c) [
    | true ↦ ok s
    | false ↦ elim (x == 0) [ true ↦ ok 0 | false ↦ strchr f m (s + 1) c ]
  ]
