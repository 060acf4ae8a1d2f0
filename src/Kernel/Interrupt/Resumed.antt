-- ===== src/Kernel/Interrupt/Resumed.antt =====
-- Where an interrupt returns to.
use free_micro_nix.Base.{
  ℕ, ◌≤◌, ◌<◌, ◌≡◌, refl, ap, inl, inr, Bool, true, false, Option, none, some, arith, ltb, leb,
  ◌==◌, if◌then◌else◌, Bool-cases, Returns,
}
use free_micro_nix.Kernel.Port.{Bus}
use free_micro_nix.Kernel.Interrupt.{
  Context, Routine, System, call, call_if, serve, irq_handler, interrupt_handler, back,
  install_interrupt_handler, install_syscall_handler, pit_8254_handler, rtc_handler, stu_handler,
  stk_handler, spurious, tick, rtc_tick, Log,
}

-- No routine, or that of a device.
unfoldable pub is_device : Option Routine → Bool
is_device none = true
is_device (some pit_8254_handler) = true
is_device (some rtc_handler) = true
is_device (some stu_handler) = false
is_device (some stk_handler) = false

-- Below vector 48 only routines of devices are installed.
abbrev pub OnlyDevices : System → Type 0
OnlyDevices s = (i : ℕ) → i < 48 → is_device (s.routines i) ≡ true

-- The context stays, and so do the routines.
record Resumes (c : Context) (s : System) (r : Context × System) : Type 0 where
  context : r.0 ≡ c
  routines : r.1.routines ≡ s.routines

call_if-Resumes :
    (bus : Bus) (o : Option Routine) (c : Context) (s : System)
    → is_device o ≡ true
    → Resumes c s (call_if bus o c s)
unfolding call_if call is_device tick rtc_tick
call_if-Resumes bus none c s device = record { context = refl; routines = refl }
call_if-Resumes bus (some pit_8254_handler) c s device = record { context = refl; routines = refl }
call_if-Resumes bus (some rtc_handler) c s device = record { context = refl; routines = refl }
call_if-Resumes bus (some stu_handler) c s device = absurd (ground arith)
call_if-Resumes bus (some stk_handler) c s device = absurd (ground arith)

serve-Resumes :
    (bus : Bus) (c : Context) (s : System) (log : Log)
    → is_device (s.routines c.int_no) ≡ true
    → Resumes c s (serve bus c (record s { log = log }))
unfolding serve
serve-Resumes bus c s log device =
    let done = call_if-Resumes bus (s.routines c.int_no) c (record s { log = log }) device in
    record { context = done.context; routines = done.routines }

both_ways {ℓ} :
    {A : Type 0} (P : A → Type ℓ) (b : Bool) {x y : A} → P x → P y → P (if b then x else y)
both_ways P true px py = px
both_ways P false px py = py

irq_handler-Resumes :
    (bus : Bus) (c : Context) (s : System)
    → is_device (s.routines c.int_no) ≡ true
    → Resumes c s (irq_handler bus c s)
unfolding irq_handler
irq_handler-Resumes bus c s device =
    let (lost, log) = spurious bus 7 s.log in
    let (lost', log') = spurious bus 15 s.log in
    both_ways (Resumes c s) (c.int_no == 39)
      (both_ways (Resumes c s) lost (record { context = refl; routines = refl })
        (serve-Resumes bus c s log device))
      (both_ways (Resumes c s) (c.int_no == 47)
        (both_ways (Resumes c s) lost' (record { context = refl; routines = refl })
          (serve-Resumes bus c s log' device))
        (serve-Resumes bus c s s.log device))

-- Where below vector 48 only routines of devices are installed, every interrupt but an exception
-- returns to exactly the context that it interrupted, and the routines are as before; installing the
-- two mode switches for system calls keeps that condition.
pub interrupt_handler-resumed :
    (bus : Bus) (msgs : ℕ → ℕ) (s : System)
    → OnlyDevices s
    → ((c : Context)
        → 32 ≤ c.int_no
        → (t : System) × (interrupt_handler bus msgs c s ≡ back c t) × (t.routines ≡ s.routines))
      × Returns OnlyDevices (install_syscall_handler s)
unfolding interrupt_handler install_syscall_handler install_interrupt_handler
interrupt_handler-resumed bus msgs s devices = (
  λ c above.
      let none_of_first : ltb c.int_no 32 ≡ false = ground arith in
      elim (Bool-cases (ltb c.int_no 48)) [
        | inl irq ↦
            let done = irq_handler-Resumes bus c s (devices c.int_no (ground arith)) in
            let low : leb 32 c.int_no ≡ true = ground arith in
            (
              (irq_handler bus c s).1,
              rw none_of_first
                  (rw low (rw irq (ap (λ c'. back c' (irq_handler bus c s).1) done.context))),
              done.routines,
            )
        | inr high ↦ (s, rw none_of_first (rw high (ground arith)), refl)
      ],
  (_, refl, λ i low. ground (arith, devices i low)),
)
