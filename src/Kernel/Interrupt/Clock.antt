-- ===== src/Kernel/Interrupt/Clock.antt =====
-- The two counts of the timer.
use free_micro_nix.Base.{
  ℕ, suc, ◌-◌, ◌/◌, ◌^◌, ◌≤◌, ◌<◌, ◌≡◌, refl, ap, ◌⊎◌, inl, inr, true, false, ◌&&◌, Option, none,
  some, arith, ltb, leb, ◌==◌, Bool-cases, Run, ok, fault, timeout,
}
use mathlib.Core.Path.{subst}
use free_micro_nix.Kernel.Port.{Bus, Log}
use free_micro_nix.Kernel.Interrupt.{
  Context, Routine, pit_8254_handler, rtc_handler, stu_handler, stk_handler, System, Exit, back,
  halted, install_interrupt_handler, tick, rtc_tick, call, call_if, spurious, serve, irq_handler,
  interrupt_handler,
}

-- The counts stay, or they go on by one tick.
abbrev Ticked : System → System → Type 0
Ticked s t =
    ((t.timer_ticks ≡ s.timer_ticks) × (t.timer_seconds ≡ s.timer_seconds))
    ⊎ ((t.timer_ticks ≡ (tick s).timer_ticks) × (t.timer_seconds ≡ (tick s).timer_seconds))

call_if-Ticked :
    (bus : Bus) (r : Option Routine) (c : Context) (s : System) → Ticked s (call_if bus r c s).1
unfolding call_if call rtc_tick
call_if-Ticked bus none c s = inl (refl, refl)
call_if-Ticked bus (some pit_8254_handler) c s = inr (refl, refl)
call_if-Ticked bus (some rtc_handler) c s = inl (refl, refl)
call_if-Ticked bus (some stu_handler) c s = inl (refl, refl)
call_if-Ticked bus (some stk_handler) c s = inl (refl, refl)

serve-Ticked : (bus : Bus) (c : Context) (s : System) → Ticked s (serve bus c s).1
unfolding serve
serve-Ticked bus c s = call_if-Ticked bus (s.routines c.int_no) c s

irq_handler-Ticked : (bus : Bus) (c : Context) (s : System) → Ticked s (irq_handler bus c s).1
unfolding irq_handler tick
irq_handler-Ticked bus c s =
    let a = serve-Ticked bus c s in
    let b = serve-Ticked bus c (record s { log = (spurious bus 7 s.log).1 }) in
    let d = serve-Ticked bus c (record s { log = (spurious bus 15 s.log).1 }) in
    elim (Bool-cases (c.int_no == 39)) [
      | inl seven ↦ elim (Bool-cases (spurious bus 7 s.log).0) [
        | inl lost ↦ rw seven (rw lost (inl (refl, refl)))
        | inr real ↦ rw seven (rw real b)
      ]
      | inr other ↦ elim (Bool-cases (c.int_no == 47)) [
        | inl fifteen ↦ elim (Bool-cases (spurious bus 15 s.log).0) [
          | inl lost ↦ rw other (rw fifteen (rw lost (inl (refl, refl))))
          | inr real ↦ rw other (rw fifteen (rw real d))
        ]
        | inr plain ↦ rw other (rw plain a)
      ]
    ]

system_of : Exit → System
system_of (back c t) = t
system_of (halted t) = t

interrupt_handler-Ticked :
    (bus : Bus) (msgs : ℕ → ℕ) (c : Context) (s : System)
    → Ticked s (system_of (interrupt_handler bus msgs c s))
unfolding interrupt_handler system_of
interrupt_handler-Ticked bus msgs c s = elim (Bool-cases (ltb c.int_no 32)) [
  | inl exception ↦ rw exception (inl (refl, refl))
  | inr no_exception ↦ elim (Bool-cases (ltb c.int_no 48)) [
    | inl line ↦
        let on : (leb 32 c.int_no && ltb c.int_no 48) ≡ true = ground arith in
        rw no_exception (rw on (irq_handler-Ticked bus c s))
    | inr above ↦
        let off : (leb 32 c.int_no && ltb c.int_no 48) ≡ false = ground arith in
        rw no_exception (rw off (inl (refl, refl)))
  ]
]

installed_system : Run System → System → System
installed_system (ok t) s = t
installed_system fault s = s
installed_system timeout s = s

install-Ticked :
    (i : ℕ) (r : Option Routine) (s : System)
    → Ticked s (installed_system (install_interrupt_handler i r s) s)
unfolding install_interrupt_handler installed_system
install-Ticked i r s = elim (Bool-cases (ltb i 256)) [
  | inl fits ↦ rw fits (inl (refl, refl))
  | inr over ↦ rw over (inl (refl, refl))
]

module _ (bus : Bus) (msgs : ℕ → ℕ) where
  -- What may happen to the kernel's globals: an interrupt that is handled, a routine that is installed or
  -- removed, and code that leaves the counts alone.
  pub data Step : System → System → Type 0 where
    interrupt :
        {s t : System} (c c' : Context) → interrupt_handler bus msgs c s ≡ back c' t → Step s t
    install :
        {s t : System} (i : ℕ) (r : Option Routine)
        → install_interrupt_handler i r s ≡ ok t
        → Step s t
    work : {s : System} (log : Log) → Step s (record s { log = log })

  -- So many steps lead from one state to the other.
  pub data Reach (s : System) : ℕ → System → Type 0 where
    here : Reach s 0 s
    next : {n : ℕ} {t u : System} → Reach s n t → Step t u → Reach s (suc n) u

  Step-Ticked : {s t : System} → Step s t → Ticked s t
  unfolding system_of installed_system
  Step-Ticked {s} (interrupt c c' e) =
      subst (λ t. Ticked s t) (ap system_of e) (interrupt_handler-Ticked bus msgs c s)
  Step-Ticked {s} (install i r e) =
      subst (λ t. Ticked s t) (ap (λ o. installed_system o s) e) (install-Ticked i r s)
  Step-Ticked (work log) = inl (refl, refl)

  -- The two counts agree: the seconds are the ticks divided by 1000.
  pub record Agree (n : ℕ) (s : System) : Type 0 where
    pub few : s.timer_ticks ≤ n
    pub seconds : s.timer_seconds ≡ s.timer_ticks / 1000

  Ticked-Agree : {n : ℕ} {s t : System} → n < 2 ^ 64 - 1 → Agree n s → Ticked s t → Agree (suc n) t
  unfolding tick
  Ticked-Agree lt a (inl (same, same')) = record {
    few = omega (arith, a.few);
    seconds = ground (arith, a.seconds);
  }
  Ticked-Agree lt a (inr (on, on')) = record {
    few = ground (arith, a.few);
    seconds = ground (arith, a.seconds, a.few);
  }

  -- From a start with both counts at 0, whatever sequence of fewer than 2^64 handled interrupts,
  -- installed or removed routines and other code follows, the seconds are the ticks divided by 1000, and
  -- there are no more ticks than steps.
  pub Reach-Agree :
      {s : System} {n : ℕ} {t : System}
      → s.timer_ticks ≡ 0
      → s.timer_seconds ≡ 0
      → Reach s n t
      → n < 2 ^ 64
      → Agree n t
  Reach-Agree zero_ticks zero_seconds here lt = record { few = omega arith; seconds = ground arith }
  Reach-Agree zero_ticks zero_seconds (next r st) lt =
      Ticked-Agree (omega arith) (Reach-Agree zero_ticks zero_seconds r (omega arith))
        (Step-Ticked st)
