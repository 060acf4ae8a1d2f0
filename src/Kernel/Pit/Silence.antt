-- ===== src/Kernel/Pit/Silence.antt =====
-- Nothing is shown while the kernel waits.
use free_micro_nix.Base.{
  ℕ, ◌+◌, ◌≤◌, ◌≡◌, refl, sym, ap, ◌∙◌, ◌≢◌, inl, inr, none, some, List, [], ◌∷◌, arith, ltb, leb,
  ◌==◌, if◌then◌else◌, Bool-cases, Run, ok, fault, timeout, u64,
}
use free_micro_nix.Kernel.Port.Visible.{visible, visible-append}
use mathlib.Core.List.{append-nil}
use free_micro_nix.Kernel.Port.Written.{written}
use free_micro_nix.Kernel.Port.Device.{effects, is_effect, effects-append, written-effects}
use free_micro_nix.Kernel.Port.{Bus, Log, hlt}
use free_micro_nix.Kernel.Pic.{pic_eoi_master, pic_eoi_slave, pic_read_isr_register, pic_read}
use free_micro_nix.Kernel.Interrupt.{
  Context, pit_8254_handler, System, call, call_if, serve, tick, spurious, irq_handler,
  interrupt_handler, back,
}
use free_micro_nix.Kernel.Pit.Wait.{IsClocked, IsQuiet}
use free_micro_nix.Kernel.Pit.{pit_8254_wait, wait_loop, record_event}

-- The timer's routine is the only one.
pub record IsAlone (s : System) : Type 0 where
  pub here : s.routines 32 ≡ some pit_8254_handler
  pub only : (i : ℕ) → i ≢ 32 → s.routines i ≡ none

pub IsAlone-IsClocked : {s : System} → IsAlone s → IsClocked s
IsAlone-IsClocked a = record { here = a.here; only = λ i ne e. ground (arith, a.only i ne) }

pub IsAlone-as : {s t : System} → t.routines ≡ s.routines → IsAlone s → IsAlone t
IsAlone-as same a = record {
  here = ap (λ f. f 32) same ∙ a.here;
  only = λ i ne. ap (λ f. f i) same ∙ a.only i ne;
}

-- Nothing is written but commands to the two interrupt controllers, none of which sets them up anew.
abbrev pub IsIdle : Log → Log → Type 0
IsIdle before after = effects after ≡ effects before

-- The routines and the count of the clock stay, nothing is shown, and only the controllers are told
-- something.
pub record Quiet (s t : System) : Type 0 where
  pub same : t.routines ≡ s.routines
  pub said : visible t.log ≡ visible s.log
  pub rtc : t.rtc_ticks ≡ s.rtc_ticks
  pub idle : IsIdle s.log t.log

pub Quiet-written :
    (port : ℕ) {s t : System}
    → port ≢ 0x20
    → port ≢ 0xA0
    → Quiet s t
    → written port t.log ≡ written port s.log
Quiet-written port {s} {t} ne ne' q =
    sym (written-effects port t.log ne ne')
    ∙ ap (written port) q.idle
    ∙ written-effects port s.log ne ne'

spurious-visible :
    (bus : Bus) (bit : ℕ) (log : Log) → visible (spurious bus bit log).1 ≡ visible log
unfolding spurious visible pic_read_isr_register pic_read
spurious-visible bus bit log = simp (visible-append, append-nil) refl

spurious-IsIdle : (bus : Bus) (bit : ℕ) (log : Log) → IsIdle log (spurious bus bit log).1
unfolding spurious effects is_effect pic_read_isr_register pic_read
spurious-IsIdle bus bit log = simp (effects-append, append-nil) refl

master-IsIdle : (log : Log) → IsIdle log (pic_eoi_master log)
unfolding pic_eoi_master effects is_effect
master-IsIdle log = simp (effects-append, append-nil) refl

slave-IsIdle : (log : Log) → IsIdle log (pic_eoi_slave log)
unfolding pic_eoi_slave effects is_effect
slave-IsIdle log = simp (effects-append, append-nil) refl

eoi-IsIdle :
    (n : ℕ) (log : Log) → IsIdle log (pic_eoi_master (if leb 40 n then pic_eoi_slave log else log))
eoi-IsIdle n log = elim (Bool-cases (leb 40 n)) [
  | inl slave ↦ rw slave (master-IsIdle (pic_eoi_slave log) ∙ slave-IsIdle log)
  | inr master ↦ rw master (master-IsIdle log)
]

eoi-visible :
    (bus : Bus) (n : ℕ) (log : Log)
    → visible (pic_eoi_master (if leb 40 n then pic_eoi_slave log else log)) ≡ visible log
unfolding visible pic_eoi_master pic_eoi_slave
eoi-visible bus n log = elim (Bool-cases (leb 40 n)) [
  | inl slave ↦ rw slave (simp (visible-append, append-nil) refl)
  | inr master ↦ rw master (simp (visible-append, append-nil) refl)
]

master-visible : (log : Log) → visible (pic_eoi_master log) ≡ visible log
unfolding visible pic_eoi_master
master-visible log = simp (visible-append, append-nil) refl

serve-Quiet : (bus : Bus) (c : Context) (s : System) → IsAlone s → Quiet s (serve bus c s).1
unfolding serve call_if call tick
serve-Quiet bus c s a = elim (Bool-cases (c.int_no == 32)) [
  | inl timer ↦
      let routine : s.routines c.int_no ≡ some pit_8254_handler = ground (arith, a.here) in
      rw routine (record {
        same = refl;
        said = eoi-visible bus c.int_no s.log;
        rtc = refl;
        idle = eoi-IsIdle c.int_no s.log;
      })
  | inr other ↦
      let routine : s.routines c.int_no ≡ none = ground (arith, a.only c.int_no) in
      rw routine (record {
        same = refl;
        said = eoi-visible bus c.int_no s.log;
        rtc = refl;
        idle = eoi-IsIdle c.int_no s.log;
      })
]

Quiet-next : {s t u : System} → Quiet s t → Quiet t u → Quiet s u
Quiet-next a b = record {
  same = b.same ∙ a.same;
  said = b.said ∙ a.said;
  rtc = b.rtc ∙ a.rtc;
  idle = b.idle ∙ a.idle;
}

irq_handler-Quiet :
    (bus : Bus) (c : Context) (s : System) → IsAlone s → Quiet s (irq_handler bus c s).1
unfolding irq_handler visible pic_eoi_master
irq_handler-Quiet bus c s a =
    let log7 = (spurious bus 7 s.log).1 in
    let log15 = (spurious bus 15 s.log).1 in
    let on7 : Quiet s (record s { log = log7 }) = record {
      same = refl;
      said = spurious-visible bus 7 s.log;
      rtc = refl;
      idle = spurious-IsIdle bus 7 s.log;
    } in
    let on15 : Quiet s (record s { log = log15 }) = record {
      same = refl;
      said = spurious-visible bus 15 s.log;
      rtc = refl;
      idle = spurious-IsIdle bus 15 s.log;
    } in
    let ended : Quiet s (record s { log = pic_eoi_master log15 }) = Quiet-next on15 (record {
      same = refl;
      said = master-visible log15;
      rtc = refl;
      idle = master-IsIdle log15;
    }) in
    let served7 = serve-Quiet bus c (record s { log = log7 }) (IsAlone-as refl a) in
    let served15 = serve-Quiet bus c (record s { log = log15 }) (IsAlone-as refl a) in
    elim (Bool-cases (c.int_no == 39)) [
      | inl seven ↦ elim (Bool-cases (spurious bus 7 s.log).0) [
        | inl lost ↦ rw seven (rw lost on7)
        | inr real ↦ rw seven (rw real (Quiet-next on7 served7))
      ]
      | inr other ↦ elim (Bool-cases (c.int_no == 47)) [
        | inl fifteen ↦ elim (Bool-cases (spurious bus 15 s.log).0) [
          | inl lost ↦ rw other (rw fifteen (rw lost ended))
          | inr real ↦ rw other (rw fifteen (rw real (Quiet-next on15 served15)))
        ]
        | inr plain ↦ rw other (rw plain (serve-Quiet bus c s a))
      ]
    ]

interrupt_handler-Quiet :
    (bus : Bus) (msgs : ℕ → ℕ) (c : Context) (s : System)
    → IsAlone s
    → 32 ≤ c.int_no
    → (c' : Context) × (t : System) × (interrupt_handler bus msgs c s ≡ back c' t) × Quiet s t
unfolding interrupt_handler
interrupt_handler-Quiet bus msgs c s a h = elim (Bool-cases (ltb c.int_no 48)) [
  | inl line ↦
      ((irq_handler bus c s).0, (irq_handler bus c s).1, ground arith, irq_handler-Quiet bus c s a)
  | inr above ↦ (c, s, ground arith, record { same = refl; said = refl; rtc = refl; idle = refl })
]

-- Where a wait returns, it was quiet.
unfoldable pub Keeps : System → Run (System × List Context) → Type 0
Keeps s (ok (t, left)) = Quiet s t
Keeps s fault = Unit
Keeps s timeout = Unit

Keeps-next : {s t : System} (r : Run (System × List Context)) → Quiet s t → Keeps t r → Keeps s r
unfolding Keeps
Keeps-next (ok (u, left)) a b = Quiet-next a b
Keeps-next fault a b = tt
Keeps-next timeout a b = tt

asleep-Quiet : (s : System) → Quiet s (record s { log = record_event hlt s.log })
unfolding visible effects is_effect
asleep-Quiet s = record {
  same = refl;
  said = simp (visible-append, append-nil) refl;
  rtc = refl;
  idle = simp (effects-append, append-nil) refl;
}

wait_loop-Keeps :
    (bus : Bus) (msgs : ℕ → ℕ) (eticks : ℕ) (arriving : List Context) (s : System)
    → IsAlone s
    → IsQuiet arriving
    → Keeps s (wait_loop bus msgs eticks arriving s)
unfolding wait_loop Keeps IsQuiet
wait_loop-Keeps bus msgs eticks [] s a q = elim (Bool-cases (ltb s.timer_ticks eticks)) [
  | inl more ↦ rw more tt
  | inr done ↦ rw done (record { same = refl; said = refl; rtc = refl; idle = refl })
]
wait_loop-Keeps bus msgs eticks (c ∷ arriving) s a q =
    elim (Bool-cases (ltb s.timer_ticks eticks)) [
      | inl more ↦
          let asleep : System = record s { log = record_event hlt s.log } in
          let (c', t, woken, quiet) =
            interrupt_handler-Quiet bus msgs c asleep (IsAlone-as refl a) q.0 in
          let rest = wait_loop-Keeps bus msgs eticks arriving t (IsAlone-as quiet.same a) q.1 in
          rw more (
            rw woken (
              Keeps-next (wait_loop bus msgs eticks arriving t) (Quiet-next (asleep-Quiet s) quiet)
                rest))
      | inr done ↦ rw done (record { same = refl; said = refl; rtc = refl; idle = refl })
    ]

-- A wait that returns was quiet.
pub pit_8254_wait-Quiet :
    (bus : Bus) (msgs : ℕ → ℕ) (ticks : ℕ) (arriving : List Context) (s : System)
    (r : System × List Context)
    → IsAlone s
    → IsQuiet arriving
    → pit_8254_wait bus msgs ticks arriving s ≡ ok r
    → Quiet s r.0
unfolding pit_8254_wait Keeps
pit_8254_wait-Quiet bus msgs ticks arriving s r a q run =
    rw run at (wait_loop-Keeps bus msgs (u64 (s.timer_ticks + ticks)) arriving s a q)
