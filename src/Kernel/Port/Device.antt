-- ===== src/Kernel/Port/Device.antt =====
-- What a device behind the ports is told: its state, run along a log.
use free_micro_nix.Base.{
  ℕ, ◌/◌, ◌%◌, ◌≡◌, refl, ap, ◌≢◌, inl, inr, Bool, true, false, not, ◌&&◌, ◌||◌, [], ◌∷◌, ◌++◌,
  arith, ◌==◌, if◌then◌else◌, Bool-cases,
}
use free_micro_nix.Kernel.Port.{
  Event, Log, out, inp, out_word, out_double, inp_word, inp_double, lgdt, lidt, ltr, cli, sti, hlt,
  printed, colored, terminal_initialized,
}
use free_micro_nix.Kernel.Port.Written.{written}

unfoldable pub run {ℓ} : {A : Type ℓ} → (Event → A → A) → Log → A → A
run tell [] a = a
run tell (e ∷ log) a = run tell log (tell e a)

pub run-append {ℓ} :
    {A : Type ℓ} (tell : Event → A → A) (log more : Log) (a : A)
    → run tell (log ++ more) a ≡ run tell more (run tell log a)
unfolding run
run-append tell [] more a = refl
run-append tell (e ∷ log) more a = run-append tell log more (tell e a)

-- A write, but for a command to an interrupt controller that does not set it up anew.
unfoldable pub is_effect : Event → Bool
is_effect (out port value) = not ((port == 0x20 || port == 0xA0) && (value / 16 % 2 == 0))
is_effect (out_word port value) = true
is_effect (out_double port value) = true
is_effect e = false

unfoldable pub effects : Log → Log
effects [] = []
effects (e ∷ log) = let rest = effects log in if is_effect e then e ∷ rest else rest

pub effects-append : (log more : Log) → effects (log ++ more) ≡ effects log ++ effects more
unfolding effects
effects-append [] more = refl
effects-append (e ∷ log) more = elim (Bool-cases (is_effect e)) [
  | inl kept ↦ rw kept (ap (λ rest. e ∷ rest) (effects-append log more))
  | inr dropped ↦ rw dropped (effects-append log more)
]

-- A device that nothing but an effect changes.
pub run-effects {ℓ} :
    {A : Type ℓ} (tell : Event → A → A)
    → ((e : Event) (a : A) → is_effect e ≡ false → tell e a ≡ a)
    → (log : Log) (a : A) → run tell (effects log) a ≡ run tell log a
unfolding run effects
run-effects tell still [] a = refl
run-effects tell still (e ∷ log) a = elim (Bool-cases (is_effect e)) [
  | inl kept ↦ rw kept (run-effects tell still log (tell e a))
  | inr dropped ↦ rw dropped (rw (still e a dropped) (run-effects tell still log a))
]

written-out :
    (port p v : ℕ) (log : Log)
    → port ≢ 0x20
    → port ≢ 0xA0
    → written port (effects (out p v ∷ log)) ≡ written port (out p v ∷ effects log)
unfolding written effects is_effect
written-out port p v log ne ne' = elim (Bool-cases (is_effect (out p v))) [
  | inl kept ↦ ground (arith, kept)
  | inr dropped ↦ ground (arith, dropped)
]

pub written-effects :
    (port : ℕ) (log : Log)
    → port ≢ 0x20
    → port ≢ 0xA0
    → written port (effects log) ≡ written port log
unfolding written effects is_effect
written-effects port [] ne ne' = refl
written-effects port (out p v ∷ log) ne ne' =
    ground (arith, written-out port p v log ne ne', written-effects port log ne ne')
written-effects port (inp p ∷ log) ne ne' = written-effects port log ne ne'
written-effects port (out_word p v ∷ log) ne ne' = written-effects port log ne ne'
written-effects port (out_double p v ∷ log) ne ne' = written-effects port log ne ne'
written-effects port (inp_word p ∷ log) ne ne' = written-effects port log ne ne'
written-effects port (inp_double p ∷ log) ne ne' = written-effects port log ne ne'
written-effects port (lgdt l a ∷ log) ne ne' = written-effects port log ne ne'
written-effects port (lidt l a ∷ log) ne ne' = written-effects port log ne ne'
written-effects port (ltr s ∷ log) ne ne' = written-effects port log ne ne'
written-effects port (cli ∷ log) ne ne' = written-effects port log ne ne'
written-effects port (sti ∷ log) ne ne' = written-effects port log ne ne'
written-effects port (hlt ∷ log) ne ne' = written-effects port log ne ne'
written-effects port (printed f vs ∷ log) ne ne' = written-effects port log ne ne'
written-effects port (colored c ∷ log) ne ne' = written-effects port log ne ne'
written-effects port (terminal_initialized ∷ log) ne ne' = written-effects port log ne ne'
