-- ===== src/Kernel/Cpuid.antt =====
-- kernel/x86/cpuid.c: the name of the processor's maker.
pub mod Vendor
use free_micro_nix.Base.{ℕ, ◌+◌, Run, ok, u8, ◌>>◌, ◌>>=◌}
use free_micro_nix.Mem.{Mem, store}
use free_micro_nix.Libc.Str.Copy.{strcpy, strcat}

-- The four words that `cpuid` leaves. The source uses this type and does not declare it.
pub record Regs : Type 0 where
  pub eax : ℕ
  pub ebx : ℕ
  pub ecx : ℕ
  pub edx : ℕ

-- The four bytes of a word, the lowest first, and a NUL, as in `line1[0] = ((char *) &r.ebx)[0]`.
unfoldable pub put_line : Mem → ℕ → ℕ → Run Mem
put_line m line word = do
  m ← store m line (u8 word)
  m ← store m (line + 1) (u8 (word >> 8))
  m ← store m (line + 2) (u8 (word >> 16))
  m ← store m (line + 3) (u8 (word >> 24))
  store m (line + 4) 0

-- The instruction, a parameter: what the processor answers to a code.
module _ (cpuid : ℕ → Regs) where
  unfoldable pub cpu_cpuid : ℕ → Regs
  cpu_cpuid code = cpuid code

  -- `line1`, `line2` and `line3` are the addresses of the local arrays.
  unfoldable pub cpu_vendor_name : ℕ → ℕ → ℕ → ℕ → Mem → ℕ → Run (Mem × ℕ)
  unfolding cpu_cpuid put_line
  cpu_vendor_name f line1 line2 line3 m name = do
    let r = cpu_cpuid 0x00
    m ← put_line m line1 r.ebx
    m ← put_line m line2 r.ecx
    m ← put_line m line3 r.edx
    (m, _) ← strcpy f m name line1
    (m, _) ← strcat f m name line3
    (m, _) ← strcat f m name line2
    ok (m, 15)

  -- `cpu_name` is the address of the array of 512 bytes.
  unfoldable pub detect_cpu : ℕ → ℕ → ℕ → ℕ → ℕ → Mem → Run (Mem × ℕ)
  unfolding cpu_vendor_name
  detect_cpu f line1 line2 line3 cpu_name m = do
    (m, _) ← cpu_vendor_name f line1 line2 line3 m cpu_name
    ok (m, cpu_name)
