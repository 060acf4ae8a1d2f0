-- ===== src/Kernel/Vga/Print.antt =====
-- The printing functions of kernel/x86/video/vga.c.
pub mod Shown
pub mod Formatted
pub mod Pointed
pub mod Refined
pub mod Extent
pub mod Literal
pub mod Dump
use free_micro_nix.Base.{
  ℕ, zero, suc, ◌+◌, ◌||◌, List, [], ◌∷◌, ◌==◌, if◌then◌else◌, Run, ◌>>=◌, ok, fault, timeout, u8,
}
use free_micro_nix.Mem.{Mem, load}
use free_micro_nix.Libc.Str.Scan.{strlen}
use free_micro_nix.Libc.Number.Format.{itoa}
use free_micro_nix.Kernel.Port.{Log}
use free_micro_nix.Kernel.Vga.{Terminal, terminal_putch, terminal_update_cursor}

-- What the printing functions touch.
pub record Console : Type 0 where
  pub mem : Mem
  pub terminal : Terminal
  pub log : Log

abbrev pub putch_on : ℕ → Console → Console
putch_on c s = record s { terminal = terminal_putch c s.terminal }

abbrev pub cursor_on : Console → Console
cursor_on s = record s { log = terminal_update_cursor s.terminal s.log }

-- `for (i = len - left; i < len; i++) Terminal_Putch(s[i]);`, with `p` for `s + i`
unfoldable pub print_loop : ℕ → ℕ → Console → Run Console
print_loop zero p s = ok s
print_loop (suc left) p s = do c ← load s.mem p; print_loop left (p + 1) (putch_on c s)

unfoldable pub terminal_print : ℕ → ℕ → Console → Run Console
unfolding print_loop
terminal_print f p s = do len ← strlen f s.mem p; s ← print_loop len p s; ok (cursor_on s)

unfoldable pub terminal_println : ℕ → ℕ → Console → Run Console
unfolding terminal_print
terminal_println f p s = do s ← terminal_print f p s; ok (putch_on b'\n' s)

-- `literal` is the address of "\0", two bytes that the compiler puts where no write is allowed.
unfoldable pub terminal_print_int : ℕ → ℕ → ℕ → Console → Run Console
unfolding terminal_print
terminal_print_int f literal i s = do
  (m, _) ← itoa f s.mem i literal 16
  terminal_print f literal (record s { mem = m })

-- The cases of the `switch` of kprintf, for a conversion that takes an argument: `buf` is the address
-- of the buffer, `null_text` that of "(null)".
unfoldable pub convert : ℕ → ℕ → ℕ → ℕ → ℕ → Console → Run Console
unfolding terminal_print
convert f buf null_text c arg s = do
  let number = do (m, _) ← itoa f s.mem arg buf c; terminal_print f buf (record s { mem = m })
  let text = terminal_print f (if arg == 0 then null_text else arg) s
  if c == b'd' || c == b'u' || c == b'x'
      then number
      else (if c == b's' then text else ok (putch_on (u8 arg) s))

-- kprintf with its further arguments as a list; an argument that was not passed is a fault.
unfoldable pub kprintf : ℕ → ℕ → ℕ → ℕ → List ℕ → Console → Run Console
unfolding convert
kprintf zero buf null_text format args s = timeout
kprintf (suc f) buf null_text format args s = do
  c ← load s.mem format
  let plain = kprintf f buf null_text (format + 1) args (putch_on c s)
  let conversion = do
    c ← load s.mem (format + 1)
    let rest : Run Console = elim args [
      | [] ↦ fault
      | arg ∷ args ↦
          convert f buf null_text c arg s >>= λ s. kprintf f buf null_text (format + 2) args s
    ]
    if c == 0 then ok s else rest
  if c == 0 then ok (cursor_on s) else if c == b'%' then conversion else plain
