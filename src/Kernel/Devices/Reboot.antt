-- ===== src/Kernel/Devices/Reboot.antt =====
-- When reboot and keyboard_reboot get to the reset command.
use free_micro_nix.Base.{
  ℕ, zero, suc, ◌+◌, ◌^◌, ◌≤◌, ◌<◌, bit_and, ◌≡◌, refl, sym, ap, ◌∙◌, inl, inr, List, [], ◌∷◌, ◌++◌,
  arith, ◌==◌, if◌then◌else◌, Bool-cases, Returns, Returns-bind, u8,
}
use mathlib.Core.List.{append-nil}
use free_micro_nix.Kernel.Port.{
  Bus, Log, inb, inp, out, cli, sti, hlt, lgdt, lidt, ltr, out_word, out_double, inp_word,
  inp_double, printed, colored, terminal_initialized,
}
use free_micro_nix.Kernel.Port.Written.{written, written-append}
use free_micro_nix.Kernel.Interrupt.{Context, System, disable_interrupts}
use free_micro_nix.Kernel.Port.Visible.{
  messages, messages-append, messages-visible, visible, visible-append,
}
use free_micro_nix.Kernel.Pit.Wait.{IsQuiet, ticks_of}
use free_micro_nix.Kernel.Pit.Silence.{IsAlone, IsAlone-as, Quiet-written}
use free_micro_nix.Kernel.Pit.Waited.{waited}
use free_micro_nix.Kernel.Devices.{empty_buffers, keyboard_reboot, reboot}

-- How often a port was read.
unfoldable pub reads : ℕ → Log → ℕ
reads port [] = 0
reads port (inp p ∷ log) = (if p == port then 1 else 0) + reads port log
reads port (e ∷ log) = reads port log

reads-append :
    (port : ℕ) (log more : Log) → reads port (log ++ more) ≡ reads port log + reads port more
unfolding reads
reads-append port [] more = omega arith
reads-append port (inp p ∷ log) more = ground (arith, reads-append port log more)
reads-append port (out p v ∷ log) more = reads-append port log more
reads-append port (lgdt l b ∷ log) more = reads-append port log more
reads-append port (lidt l b ∷ log) more = reads-append port log more
reads-append port (ltr s ∷ log) more = reads-append port log more
reads-append port (out_word p v ∷ log) more = reads-append port log more
reads-append port (out_double p v ∷ log) more = reads-append port log more
reads-append port (inp_word p ∷ log) more = reads-append port log more
reads-append port (inp_double p ∷ log) more = reads-append port log more
reads-append port (cli ∷ log) more = reads-append port log more
reads-append port (sti ∷ log) more = reads-append port log more
reads-append port (hlt ∷ log) more = reads-append port log more
reads-append port (printed f values ∷ log) more = reads-append port log more
reads-append port (colored c ∷ log) more = reads-append port log more
reads-append port (terminal_initialized ∷ log) more = reads-append port log more

-- The controller has taken all of its input once it was asked `n` times.
abbrev pub Empties : Bus → ℕ → Type 0
Empties bus n = (log : Log) → n ≤ reads 0x64 log → bit_and (u8 (bus 0x64 log)) 2 ≡ 0

-- The log behind one round of the loop.
unfoldable asked : Bus → Log → Log
asked bus log =
    let (temp, log) = inb bus 0x64 log in if bit_and temp 1 == 0 then log else (inb bus 0x60 log).1

asked-reads : (bus : Bus) (log : Log) → reads 0x64 (asked bus log) ≡ reads 0x64 log + 1
unfolding asked reads
asked-reads bus log =
    let one = reads-append 0x64 log (inp 0x64 ∷ []) in
    let two = reads-append 0x64 (log ++ inp 0x64 ∷ []) (inp 0x60 ∷ []) in ground (arith, one, two)

asked-written : (bus : Bus) (log : Log) → written 0x64 (asked bus log) ≡ written 0x64 log
unfolding asked written
asked-written bus log =
    let one = written-append 0x64 log (inp 0x64 ∷ []) in
    let two = written-append 0x64 (log ++ inp 0x64 ∷ []) (inp 0x60 ∷ []) in
    ground (
      arith,
      one,
      two,
      append-nil (written 0x64 log),
      append-nil (written 0x64 (log ++ inp 0x64 ∷ [])),
    )

asked-visible : (bus : Bus) (log : Log) → visible (asked bus log) ≡ visible log
unfolding asked visible
asked-visible bus log = elim (Bool-cases (bit_and (u8 (bus 0x64 log)) 1 == 0)) [
  | inl none_left ↦ rw none_left (simp (visible-append, append-nil) refl)
  | inr some_left ↦ rw some_left (simp (visible-append, append-nil) refl)
]

module _ (bus : Bus) where
  empty_buffers-written :
      (n f : ℕ) (log : Log)
      → Empties bus n
      → 0 < f
      → n < reads 0x64 log + f
      → Returns
          (λ log'. (written 0x64 log' ≡ written 0x64 log) × (visible log' ≡ visible log))
          (empty_buffers bus f log)
  unfolding empty_buffers asked
  empty_buffers-written n zero log e left lt = absurd (omega arith)
  empty_buffers-written n (suc f) log e left lt =
      elim (Bool-cases (bit_and (u8 (bus 0x64 log)) 2 == 0)) [
        | inl clear ↦ rw clear ((_, refl, (asked-written bus log, asked-visible bus log)))
        | inr waiting ↦
            let few : reads 0x64 log < n = ground (arith, e log) in
            let (log', run, (same, said)) =
              empty_buffers-written n f (asked bus log) e (omega arith)
                (ground (arith, asked-reads bus log)) in
            rw waiting ((log', run, (same ∙ asked-written bus log, said ∙ asked-visible bus log)))
      ]

keyboard_reboot-written :
    (bus : Bus) (n f : ℕ) (log : Log)
    → Empties bus n
    → n < f
    → Returns
        (λ log'. (written 0x64 log' ≡ written 0x64 log ++ 0xFE ∷ []) × (visible log' ≡ visible log))
        (keyboard_reboot bus f log)
unfolding keyboard_reboot written visible disable_interrupts
keyboard_reboot-written bus n f log e lt =
    Returns-bind (empty_buffers-written bus n f (log ++ cli ∷ []) e (omega arith) (omega arith))
      λ log' (same, said). (
        _,
        refl,
        (
          simp written-append (rw same (simp (written-append, append-nil) refl)),
          simp (visible-append, append-nil) (rw said (simp (visible-append, append-nil) refl)),
        ),
      )

-- Where only the timer's routine is installed, no exception arrives and the timer interrupts at least
-- 5000 times, below 2^64, and where the keyboard controller has taken its input after some number of
-- questions, with more fuel than that: reboot gets through both of its waits. It shows its message and
-- nothing else, 5000 ticks go by, and what it writes to the controller is the reset command alone.
pub reboot-written :
    (bus : Bus) (msgs : ℕ → ℕ) (n f : ℕ) (arriving : List Context) (s : System)
    → IsAlone s
    → IsQuiet arriving
    → s.timer_ticks + 5000 < 2 ^ 64
    → 5000 ≤ ticks_of arriving
    → Empties bus n
    → n < f
    → Returns
        (λ (t, left).
          (messages t.log ≡ messages s.log ++ ("Rebooting CPU\n", []) ∷ [])
          × (t.timer_ticks ≡ s.timer_ticks + 5000)
          × (written 0x64 t.log ≡ written 0x64 s.log ++ 0xFE ∷ []))
        (reboot bus msgs f arriving s)
unfolding reboot written visible messages
reboot-written bus msgs n f arriving s a q fits enough e lt =
    Returns-bind
      (waited bus msgs 5000 arriving (record s { log = _ }) (IsAlone-as refl a) q fits enough)
      λ (t, left) (at, used, quiet, same).
        Returns-bind (keyboard_reboot-written bus n f t.log e lt) λ log (told, said). (
          _,
          refl,
          (
            sym (messages-visible log)
                ∙ ap messages (said ∙ same.said ∙ visible-append s.log _)
                ∙ messages-append (visible s.log) _
                ∙ rw (messages-visible s.log) refl,
            at,
            told
                ∙ ap (λ w. w ++ 0xFE ∷ [])
                    (Quiet-written 0x64 (omega arith) (omega arith) same
                      ∙ simp (written-append, append-nil) refl),
          ),
        )
