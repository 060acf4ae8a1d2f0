-- ===== src/Libc/Process.antt =====
-- libc/stdlib/exit.c and abort.c, libc/stdio/putchar.c, libc/init/__init_libc.c.
use free_micro_nix.Base.{ℕ, zero, suc, ◌≡◌, refl, List, [], ◌∷◌, Run, timeout, u8}

-- `while (true)` runs on fuel, and has no other end.
unfoldable pub exit : ℕ → ℕ → Run (Unit {0})
exit zero status = timeout
exit (suc rounds) status = exit rounds status

unfoldable pub abort : ℕ → Run (Unit {0})
abort zero = timeout
abort (suc rounds) = abort rounds

-- Neither comes back, however long it is run.
exit-endless : (rounds status : ℕ) → (exit rounds status ≡ timeout) × (abort rounds ≡ timeout)
unfolding exit abort
exit-endless zero status = (refl, refl)
exit-endless (suc rounds) status = exit-endless rounds status

-- `write` stands for terminal_write, which no file declares: it takes the bytes at the address.
unfoldable pub putchar {ℓ} : {S : Type ℓ} → (List ℕ → S → S) → ℕ → S → S × ℕ
putchar write ic s = (write (u8 ic ∷ []) s, ic)

-- It does nothing.
unfoldable pub init_libc {ℓ} : {S : Type ℓ} → ℕ → ℕ → ℕ → S → S
init_libc argc argv envp s = s
