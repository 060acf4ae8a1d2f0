-- ===== src/Libc/Str/Token.antt =====
-- libc/string/strtok.c, strtok_r.c.
pub mod Next
pub mod Words
pub mod Cut
pub mod Split
pub mod Reentrant
pub mod Saved
use free_micro_nix.Base.{ℕ, ◌+◌, ◌==◌, if◌then◌else◌, Run, ok, ◌>>=◌}
use free_micro_nix.Mem.{Mem, load, store}
use free_micro_nix.Libc.Str.Scan.{lfind}
use free_micro_nix.Libc.Str.Span.{strspn, strcspn, strpbrk}

-- With the static variable `p`: the memory and `p` behind the call, and the result.
unfoldable pub strtok : ℕ → Mem → ℕ → ℕ → ℕ → Run (Mem × ℕ × ℕ)
strtok f m p str delim = do
  let start = if str == 0 then p else str
  let searched = do
    skipped ← strspn f m start delim
    let token = start + skipped
    size ← strcspn f m token delim
    let p = token + size
    let found = do
      c ← load m p
      let cut = do m ← store m p 0; ok (m, p + 1, token)
      if c == 0 then ok (m, 0, token) else cut
    if p == token then ok (m, 0, 0) else found
  if start == 0 then ok (m, p, 0) else searched

-- With the value of `*saveptr` for `saveptr`: the memory, `*saveptr` behind the call, and the result.
unfoldable pub strtok_r : ℕ → Mem → ℕ → ℕ → ℕ → Run (Mem × ℕ × ℕ)
strtok_r f m str delim saved = do
  let start = if str == 0 then saved else str
  skipped ← strspn f m start delim
  let token = start + skipped
  c ← load m token
  let found = do
    end ← strpbrk f m token delim
    let last = do behind ← lfind f m token 0; ok (m, behind, token)
    let cut = do m ← store m end 0; ok (m, end + 1, token)
    if end == 0 then last else cut
  if c == 0 then ok (m, token, 0) else found
