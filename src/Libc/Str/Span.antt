-- ===== src/Libc/Str/Span.antt =====
-- libc/string/strspn.c, strcspn.c, strpbrk.c. The search for one byte in the set takes the same
-- fuel as the loop around it.
pub mod Laws
use free_micro_nix.Base.{
  ℕ, zero, suc, ◌+◌, ◌==◌, if◌then◌else◌, Run, ok, timeout, int_of_char, ◌>>=◌,
}
use free_micro_nix.Mem.{Mem, load}
use free_micro_nix.Libc.Str.Scan.{strchr}

module _ (k : ℕ) (m : Mem) (s2 : ℕ) where
  -- `while (*s1 && strchr(s2, *s1++)) ret++;`
  unfoldable pub strspn_loop : ℕ → ℕ → ℕ → Run ℕ
  strspn_loop zero s1 ret = timeout
  strspn_loop (suc f) s1 ret = do
    c ← load m s1
    let rest = do
      found ← strchr k m s2 (int_of_char c)
      let next = strspn_loop f (s1 + 1) (ret + 1)
      if found == 0 then ok ret else next
    if c == 0 then ok ret else rest

  -- `while (*s1) if (strchr(s2, *s1)) return ret; else s1++, ret++;`
  unfoldable pub strcspn_loop : ℕ → ℕ → ℕ → Run ℕ
  strcspn_loop zero s1 ret = timeout
  strcspn_loop (suc f) s1 ret = do
    c ← load m s1
    let rest = do
      found ← strchr k m s2 (int_of_char c)
      let next = strcspn_loop f (s1 + 1) (ret + 1)
      if found == 0 then next else ok ret
    if c == 0 then ok ret else rest

unfoldable pub strspn : ℕ → Mem → ℕ → ℕ → Run ℕ
unfolding strspn_loop
strspn f m s1 s2 = strspn_loop f m s2 f s1 0

unfoldable pub strcspn : ℕ → Mem → ℕ → ℕ → Run ℕ
unfolding strcspn_loop
strcspn f m s1 s2 = strcspn_loop f m s2 f s1 0

-- `for (acc = accept; *acc; ++acc) if (*str == *acc) break;`, with `c` for `*str`: where `acc`
-- stops.
unfoldable pub accept_loop : ℕ → Mem → ℕ → ℕ → Run ℕ
accept_loop zero m c acc = timeout
accept_loop (suc f) m c acc = do
  a ← load m acc
  let rest = accept_loop f m c (acc + 1)
  if a == 0 then ok acc else if c == a then ok acc else rest

-- The `while` of strpbrk: the values of `str` and `acc` behind it.
unfoldable pub strpbrk_loop : ℕ → ℕ → Mem → ℕ → ℕ → ℕ → Run (ℕ × ℕ)
unfolding accept_loop
strpbrk_loop k zero m accept str acc = timeout
strpbrk_loop k (suc f) m accept str acc = do
  c ← load m str
  let rest = do
    acc ← accept_loop k m c accept
    a ← load m acc
    let next = strpbrk_loop k f m accept (str + 1) acc
    if a == 0 then next else ok (str, acc)
  if c == 0 then ok (str, acc) else rest

unfoldable pub strpbrk : ℕ → Mem → ℕ → ℕ → Run ℕ
unfolding strpbrk_loop
strpbrk f m str accept = do
  first ← load m str
  let rest = do
    (str, acc) ← strpbrk_loop f f m accept str accept
    a ← load m acc
    if a == 0 then ok 0 else ok str
  if first == 0 then ok 0 else rest
