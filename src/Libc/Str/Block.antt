-- ===== src/Libc/Str/Block.antt =====
-- libc/string/memcpy.c, memmove.c, memset.c.
pub mod Copied
pub mod Filled
use free_micro_nix.Base.{ℕ, zero, suc, ◌+◌, ltb, if◌then◌else◌, Run, ok, u8, ◌>>=◌}
use free_micro_nix.Mem.{Mem, load, store}

-- `while (n--) *dp++ = *sp++;`
unfoldable pub copy_up : ℕ → Mem → ℕ → ℕ → Run Mem
copy_up zero m dp sp = ok m
copy_up (suc n) m dp sp = do c ← load m sp; m ← store m dp c; copy_up n m (dp + 1) (sp + 1)

unfoldable pub memcpy : Mem → ℕ → ℕ → ℕ → Run (Mem × ℕ)
unfolding copy_up
memcpy m dest src n = do m ← copy_up n m dest src; ok (m, dest)

-- `for (i = size - left; i < size; i++) dst[i] = src[i];`, with `left` rounds to go
unfoldable pub move_up : ℕ → ℕ → Mem → ℕ → ℕ → Run Mem
move_up zero i m dst src = ok m
move_up (suc left) i m dst src = do
  c ← load m (src + i)
  m ← store m (dst + i) c
  move_up left (i + 1) m dst src

-- `for (; i != 0; i--) dst[i-1] = src[i-1];`
unfoldable pub move_down : ℕ → Mem → ℕ → ℕ → Run Mem
move_down zero m dst src = ok m
move_down (suc i) m dst src = do
  c ← load m (src + i)
  m ← store m (dst + i) c
  move_down i m dst src

unfoldable pub memmove : Mem → ℕ → ℕ → ℕ → Run (Mem × ℕ)
unfolding move_up move_down
memmove m dst src size = do
  m ← if ltb dst src then move_up size 0 m dst src else move_down size m dst src
  ok (m, dst)

unfoldable pub fill : ℕ → Mem → ℕ → ℕ → Run Mem
fill zero m p c = ok m
fill (suc n) m p c = do m ← store m p (u8 c); fill n m (p + 1) c

-- `c` is an `int`, given by its 32-bit pattern.
unfoldable pub memset : Mem → ℕ → ℕ → ℕ → Run (Mem × ℕ)
unfolding fill
memset m s c n = do m ← fill n m s c; ok (m, s)
