-- ===== src/Libc/Str/Compare.antt =====
-- libc/string/memcmp.c, strcmp.c.
pub mod Laws
use free_micro_nix.Base.{
  ℕ, zero, suc, ◌+◌, not, ◌&&◌, ◌==◌, if◌then◌else◌, Run, ok, timeout, ℤ, sub_ℕ, pos, ◌>>=◌,
}
use free_micro_nix.Mem.{Mem, load}

-- `while (n--) if (*p1 != *p2) return *p1 - *p2; else p1++, p2++;`
unfoldable pub memcmp : ℕ → Mem → ℕ → ℕ → Run ℤ
memcmp zero m p1 p2 = ok (pos 0)
memcmp (suc n) m p1 p2 = do
  x ← load m p1
  y ← load m p2
  let rest = memcmp n m (p1 + 1) (p2 + 1)
  if x == y then rest else ok (sub_ℕ x y)

unfoldable pub strcmp : ℕ → Mem → ℕ → ℕ → Run ℤ
strcmp zero m s1 s2 = timeout
strcmp (suc f) m s1 s2 = do
  x ← load m s1
  y ← load m s2
  let rest = strcmp f m (s1 + 1) (s2 + 1)
  if not (x == 0) && (x == y) then rest else ok (sub_ℕ x y)
