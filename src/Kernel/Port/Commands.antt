-- ===== src/Kernel/Port/Commands.antt =====
-- What the interrupt controllers are told at their command ports.
use free_micro_nix.Base.{ℕ, ◌≡◌, refl, ◌||◌, List, [], ◌∷◌, ◌++◌, arith, ◌==◌, if◌then◌else◌}
use free_micro_nix.Kernel.Port.{
  Log, out, inp, lgdt, lidt, ltr, out_word, out_double, inp_word, inp_double, cli, sti, hlt,
  printed, colored, terminal_initialized,
}

-- The writes to the command ports of both controllers in one order, each with its port.
unfoldable pub commands : Log → List (ℕ × ℕ)
commands [] = []
commands (out p v ∷ log) = if p == 0x20 || p == 0xA0 then (p, v) ∷ commands log else commands log
commands (e ∷ log) = commands log

pub commands-append : (log more : Log) → commands (log ++ more) ≡ commands log ++ commands more
unfolding commands
commands-append [] more = refl
commands-append (out p v ∷ log) more = ground (arith, commands-append log more)
commands-append (inp p ∷ log) more = commands-append log more
commands-append (lgdt l b ∷ log) more = commands-append log more
commands-append (lidt l b ∷ log) more = commands-append log more
commands-append (ltr s ∷ log) more = commands-append log more
commands-append (out_word p v ∷ log) more = commands-append log more
commands-append (out_double p v ∷ log) more = commands-append log more
commands-append (inp_word p ∷ log) more = commands-append log more
commands-append (inp_double p ∷ log) more = commands-append log more
commands-append (cli ∷ log) more = commands-append log more
commands-append (sti ∷ log) more = commands-append log more
commands-append (hlt ∷ log) more = commands-append log more
commands-append (printed f values ∷ log) more = commands-append log more
commands-append (colored c ∷ log) more = commands-append log more
commands-append (terminal_initialized ∷ log) more = commands-append log more
