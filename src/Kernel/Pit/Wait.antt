-- ===== src/Kernel/Pit/Wait.antt =====
-- How long PIT_8254_Wait waits.
use free_micro_nix.Base.{
  ℕ, ◌+◌, ◌^◌, ◌≤◌, ◌<◌, ◌≡◌, refl, sym, ap, ◌∙◌, ◌≢◌, inl, inr, Bool, true, Option, none, some,
  List, [], ◌∷◌, ◌++◌, arith, ltb, ◌==◌, if◌then◌else◌, ltb→lt, Bool-cases, Returns, u64,
}
use free_micro_nix.Kernel.Port.{Bus, Log, hlt, record_event}
use free_micro_nix.Kernel.Interrupt.{
  Context, Routine, pit_8254_handler, rtc_handler, stu_handler, stk_handler, System, back, call,
  call_if, serve, irq_handler, interrupt_handler, tick, rtc_tick, spurious,
}
use free_micro_nix.Kernel.Pit.{wait_loop, pit_8254_wait}

-- The timer's routine stands at its own vector and nowhere else.
pub record IsClocked (s : System) : Type 0 where
  pub here : s.routines 32 ≡ some pit_8254_handler
  pub only : (i : ℕ) → i ≢ 32 → s.routines i ≢ some pit_8254_handler

pub IsClocked-as : {s t : System} → t.routines ≡ s.routines → IsClocked s → IsClocked t
IsClocked-as same k = record {
  here = ap (λ f. f 32) same ∙ k.here;
  only = λ i ne e. k.only i ne (sym (ap (λ f. f i) same) ∙ e);
}

-- The ticks that the arriving interrupts bring.
unfoldable pub ticks_of : List Context → ℕ
ticks_of [] = 0
ticks_of (c ∷ cs) = (if c.int_no == 32 then 1 else 0) + ticks_of cs

-- No exception is among them.
unfoldable pub IsQuiet : List Context → Type 0
IsQuiet [] = Unit
IsQuiet (c ∷ cs) = (32 ≤ c.int_no) × IsQuiet cs

call_ticks :
    (bus : Bus) (r : Option Routine) (c : Context) (s : System)
    → let t = (call_if bus r c s).1 in
      (t.routines ≡ s.routines)
      × (r ≡ some pit_8254_handler → t.timer_ticks ≡ u64 (s.timer_ticks + 1))
      × (r ≢ some pit_8254_handler → t.timer_ticks ≡ s.timer_ticks)
unfolding call_if call tick rtc_tick
call_ticks bus none c s = (refl, λ e. cc, λ e. refl)
call_ticks bus (some pit_8254_handler) c s = (refl, λ e. refl, λ ne. absurd (ne refl))
call_ticks bus (some rtc_handler) c s = (refl, λ e. cc, λ e. refl)
call_ticks bus (some stu_handler) c s = (refl, λ e. cc, λ e. refl)
call_ticks bus (some stk_handler) c s = (refl, λ e. cc, λ e. refl)

-- What an interrupt that is no exception does to the table and to the clock.
record Advances (c : Context) (s t : System) : Type 0 where
  same : t.routines ≡ s.routines
  ticks : t.timer_ticks ≡ (if c.int_no == 32 then u64 (s.timer_ticks + 1) else s.timer_ticks)

serve-Advances :
    (bus : Bus) (c : Context) (s : System) → IsClocked s → Advances c s (serve bus c s).1
unfolding serve
serve-Advances bus c s k =
    let (same, mine, other) = call_ticks bus (s.routines c.int_no) c s in
    record { same = same; ticks = ground (arith, k.here, k.only c.int_no) }

-- A spurious interrupt is no tick.
unticked :
    (c : Context) (s : System) (log : Log) → c.int_no ≢ 32 → Advances c s (record s { log = log })
unticked c s log ne = record { same = refl; ticks = ground arith }

relogged : {s : System} (log : Log) → IsClocked s → IsClocked (record s { log = log })
relogged log k = record { here = k.here; only = k.only }

irq_handler-Advances :
    (bus : Bus) (c : Context) (s : System) → IsClocked s → Advances c s (irq_handler bus c s).1
unfolding irq_handler
irq_handler-Advances bus c s k =
    let logged_7 = (spurious bus 7 s.log).1 in
    let logged_15 = (spurious bus 15 s.log).1 in
    let a = serve-Advances bus c s k in
    let b = serve-Advances bus c (record s { log = logged_7 }) (relogged logged_7 k) in
    let d = serve-Advances bus c (record s { log = logged_15 }) (relogged logged_15 k) in
    record {
      same = ground (arith, a.same, b.same, d.same);
      ticks = ground (arith, a.ticks, b.ticks, d.ticks);
    }

interrupt_handler-Advances :
    (bus : Bus) (msgs : ℕ → ℕ) (c : Context) (s : System)
    → IsClocked s
    → 32 ≤ c.int_no
    → (c' : Context) × (t : System) × (interrupt_handler bus msgs c s ≡ back c' t) × Advances c s t
unfolding interrupt_handler
interrupt_handler-Advances bus msgs c s k h = elim (Bool-cases (ltb c.int_no 48)) [
  | inl line ↦ (
    (irq_handler bus c s).0,
    (irq_handler bus c s).1,
    ground arith,
    irq_handler-Advances bus c s k,
  )
  | inr above ↦ (c, s, ground arith, record { same = refl; ticks = ground arith })
]

-- The last of these interrupts, if there is one, is a tick.
unfoldable pub ends_in_tick : List Context → Bool
ends_in_tick [] = true
ends_in_tick (c ∷ []) = c.int_no == 32
ends_in_tick (c ∷ d ∷ cs) = ends_in_tick (d ∷ cs)

ends_in_tick-cons :
    (c : Context) (cs : List Context)
    → (ticks_of cs ≡ 0 → c.int_no ≡ 32)
    → ends_in_tick cs ≡ true
    → ends_in_tick (c ∷ cs) ≡ true
unfolding ends_in_tick ticks_of
ends_in_tick-cons c [] h e = ground (arith, h refl)
ends_in_tick-cons c (d ∷ cs) h e = e

wait_loop-ticks :
    (bus : Bus) (msgs : ℕ → ℕ) (eticks : ℕ) (arriving : List Context) (s : System)
    → IsClocked s
    → IsQuiet arriving
    → s.timer_ticks ≤ eticks
    → eticks < 2 ^ 64
    → eticks ≤ s.timer_ticks + ticks_of arriving
    → Returns
        (λ (t, left).
          (t.timer_ticks ≡ eticks)
          × (s.timer_ticks + ticks_of arriving ≡ eticks + ticks_of left)
          × IsQuiet left
          × (t.routines ≡ s.routines)
          × (used : List Context) × (arriving ≡ used ++ left)
          × (s.timer_ticks + ticks_of used ≡ eticks)
          × (ends_in_tick used ≡ true))
        (wait_loop bus msgs eticks arriving s)
unfolding wait_loop ticks_of IsQuiet ends_in_tick
wait_loop-ticks bus msgs eticks [] s k q low fits enough =
    ((s, []), ground arith, (omega arith, omega arith, q, refl, [], refl, omega arith, refl))
wait_loop-ticks bus msgs eticks (c ∷ arriving) s k q low fits enough =
    elim (Bool-cases (ltb s.timer_ticks eticks)) [
      | inl more ↦
          let asleep : System = record s { log = record_event hlt s.log } in
          let (c', t, woken, a) =
            interrupt_handler-Advances bus msgs c asleep (relogged (record_event hlt s.log) k)
              q.0 in
          let lt = ltb→lt s.timer_ticks eticks more in
          let step : t.timer_ticks ≡ (if c.int_no == 32 then 1 else 0) + s.timer_ticks =
            ground (arith, a.ticks) in
          let clocked = IsClocked-as a.same k in
          let (r, run, (at, left, quiet, same, used, split, count, ends)) =
            wait_loop-ticks bus msgs eticks arriving t clocked q.1 (ground (arith, step)) fits
              (ground (arith, step)) in
          (
            r,
            (rw woken (rw more run)),
            (
              at,
              ground (arith, step),
              quiet,
              same ∙ a.same,
              c ∷ used,
              ap (λ cs. c ∷ cs) split,
              ground (arith, step, count),
              ends_in_tick-cons c used (λ none_left. ground (arith, step, count)) ends,
            ),
          )
      | inr done ↦ (
        (s, c ∷ arriving),
        ground arith,
        (ground arith, ground arith, q, refl, [], refl, ground arith, refl),
      )
    ]

-- PIT_8254_Wait returns once the timer has ticked as often as it was told, and no sooner: the clock
-- then stands exactly that much later, and the routines are as before. Of the arriving interrupts it
-- took a first part, the others between the ticks included, that has exactly that many ticks and is
-- empty or ends with one: nothing behind the last of these ticks is taken. This holds when the timer's routine is at vector 32
-- alone, no exception arrives, enough ticks do, and the clock does not pass 2^64.
pub pit_8254_wait-ticks :
    (bus : Bus) (msgs : ℕ → ℕ) (ticks : ℕ) (arriving : List Context) (s : System)
    → IsClocked s
    → IsQuiet arriving
    → s.timer_ticks + ticks < 2 ^ 64
    → ticks ≤ ticks_of arriving
    → Returns
        (λ (t, left).
          (t.timer_ticks ≡ s.timer_ticks + ticks)
          × (ticks_of arriving ≡ ticks + ticks_of left)
          × IsQuiet left
          × (t.routines ≡ s.routines)
          × (used : List Context) × (arriving ≡ used ++ left)
          × (ticks_of used ≡ ticks)
          × (ends_in_tick used ≡ true))
        (pit_8254_wait bus msgs ticks arriving s)
unfolding pit_8254_wait
pit_8254_wait-ticks bus msgs ticks arriving s k q fits enough =
    let same : u64 (s.timer_ticks + ticks) ≡ s.timer_ticks + ticks = ground arith in
    let (r, run, (at, left, quiet, routines, used, split, count, ends)) =
      wait_loop-ticks bus msgs (s.timer_ticks + ticks) arriving s k q (omega arith) fits
        (omega arith) in
    (
      r,
      ap (λ e. wait_loop bus msgs e arriving s) same ∙ run,
      (at, omega arith, quiet, routines, used, split, omega (arith, count), ends),
    )
