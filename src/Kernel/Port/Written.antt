-- ===== src/Kernel/Port/Written.antt =====
-- The values written to one port, in order: what the device at that port is told.
use free_micro_nix.Base.{ℕ, ◌≡◌, refl, List, [], ◌∷◌, ◌++◌, arith, ◌==◌, if◌then◌else◌}
use free_micro_nix.Kernel.Port.{
  Log, out, inp, lgdt, lidt, ltr, out_word, out_double, inp_word, inp_double, cli, sti, hlt,
  printed, colored, terminal_initialized,
}

unfoldable pub written : ℕ → Log → List ℕ
written port [] = []
written port (out p v ∷ log) = if p == port then v ∷ written port log else written port log
written port (e ∷ log) = written port log

pub written-append :
    (port : ℕ) (log more : Log) → written port (log ++ more) ≡ written port log ++ written port more
unfolding written
written-append port [] more = refl
written-append port (out p v ∷ log) more = ground (arith, written-append port log more)
written-append port (inp p ∷ log) more = written-append port log more
written-append port (lgdt l b ∷ log) more = written-append port log more
written-append port (lidt l b ∷ log) more = written-append port log more
written-append port (ltr s ∷ log) more = written-append port log more
written-append port (out_word p v ∷ log) more = written-append port log more
written-append port (out_double p v ∷ log) more = written-append port log more
written-append port (inp_word p ∷ log) more = written-append port log more
written-append port (inp_double p ∷ log) more = written-append port log more
written-append port (cli ∷ log) more = written-append port log more
written-append port (sti ∷ log) more = written-append port log more
written-append port (hlt ∷ log) more = written-append port log more
written-append port (printed f values ∷ log) more = written-append port log more
written-append port (colored c ∷ log) more = written-append port log more
written-append port (terminal_initialized ∷ log) more = written-append port log more
