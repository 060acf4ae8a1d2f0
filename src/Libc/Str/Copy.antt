-- ===== src/Libc/Str/Copy.antt =====
-- libc/string/strcpy.c, strcat.c, strncpy.c.
pub mod Laws
pub mod Padded
use free_micro_nix.Base.{ℕ, zero, suc, ◌+◌, ◌==◌, if◌then◌else◌, Run, ok, timeout, ◌>>=◌}
use free_micro_nix.Mem.{Mem, load, store}

-- `while ((*dest++ = *src++)) ;`
unfoldable pub copy_string : ℕ → Mem → ℕ → ℕ → Run Mem
copy_string zero m dest src = timeout
copy_string (suc f) m dest src = do
  c ← load m src
  m ← store m dest c
  let rest = copy_string f m (dest + 1) (src + 1)
  if c == 0 then ok m else rest

unfoldable pub strcpy : ℕ → Mem → ℕ → ℕ → Run (Mem × ℕ)
unfolding copy_string
strcpy f m dest src = do m ← copy_string f m dest src; ok (m, dest)

-- `while (*dest) dest++;`
unfoldable pub end_of : ℕ → Mem → ℕ → Run ℕ
end_of zero m dest = timeout
end_of (suc f) m dest = do
  c ← load m dest
  let rest = end_of f m (dest + 1)
  if c == 0 then ok dest else rest

unfoldable pub strcat : ℕ → Mem → ℕ → ℕ → Run (Mem × ℕ)
unfolding copy_string end_of
strcat f m dest src = do end ← end_of f m dest; m ← copy_string f m end src; ok (m, dest)

-- `while (n--) *dest++ = 0;`
unfoldable pub pad : ℕ → Mem → ℕ → Run Mem
pad zero m dest = ok m
pad (suc n) m dest = do m ← store m dest 0; pad n m (dest + 1)

-- `do { if (!n--) return ret; } while ((*dest++ = *src++));` and the padding behind it
unfoldable pub strncpy_loop : ℕ → Mem → ℕ → ℕ → Run Mem
unfolding pad
strncpy_loop zero m dest src = ok m
strncpy_loop (suc n) m dest src = do
  c ← load m src
  m ← store m dest c
  let rest = strncpy_loop n m (dest + 1) (src + 1)
  if c == 0 then pad n m (dest + 1) else rest

unfoldable pub strncpy : Mem → ℕ → ℕ → ℕ → Run (Mem × ℕ)
unfolding strncpy_loop
strncpy m dest src n = do m ← strncpy_loop n m dest src; ok (m, dest)
