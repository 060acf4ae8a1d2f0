-- ===== src/Kernel/Devices/Speaker.antt =====
-- What the speaker is told.
use free_micro_nix.Base.{
  ℕ, ◌+◌, ◌*◌, ◌/◌, ◌%◌, ◌^◌, ◌≤◌, ◌<◌, bit_and, bit_or, ◌≡◌, refl, sym, ap, ◌∙◌, none, some, List,
  [], ◌∷◌, ◌++◌, arith, Returns, Returns-bind, u8,
}
use mathlib.Core.List.{append_assoc, append-nil}
use free_micro_nix.Base.Bits.{bit_or_digit, bit_and_digit, bit_or-zero, bit_and_mask}
use free_micro_nix.Kernel.Port.{Bus, Log, out, outb, inb}
use free_micro_nix.Kernel.Port.Visible.{visible, visible-append}
use free_micro_nix.Kernel.Port.Written.{written, written-append}
use free_micro_nix.Kernel.Interrupt.{Context, System}
use free_micro_nix.Kernel.Pit.Wait.{IsQuiet, ticks_of}
use free_micro_nix.Kernel.Pit.Silence.{IsAlone, IsAlone-as}
use free_micro_nix.Kernel.Pit.Waited.{waited}
use free_micro_nix.Kernel.Pit.Counter.{Counter, tell, tell-still}
use free_micro_nix.Kernel.Port.Device.{
  effects, is_effect, effects-append, written-effects, run, run-append, run-effects,
}
use free_micro_nix.Kernel.Devices.{speaker_beep}

-- The two bits of port 0x61 that connect the timer's channel and the speaker.
abbrev pub gate_of : ℕ → ℕ
gate_of value = value % 4

bit_or-gate :
    (v : ℕ)
    → v < 256
    → (bit_or v 0x03 < 256) × (gate_of (bit_or v 0x03) ≡ 3) × (bit_or v 0x03 / 4 ≡ v / 4)
bit_or-gate v lt =
    let whole : bit_or v 0x03 ≡ v / 4 * 4 + 3 =
      ground (arith, bit_or_digit v 3, bit_or_digit (v / 2) 1, bit_or-zero (v / 2 / 2)) in
    (omega (arith, whole), omega (arith, whole), omega (arith, whole))

bit_and-gate : (v : ℕ) → v < 256 → bit_and v 0xFC ≡ v / 4 * 4
bit_and-gate v lt =
    ground (arith, bit_and_digit v 0xFC, bit_and_digit (v / 2) 0x7E, bit_and_mask 6 (v / 2 / 2))

-- The gate is opened and then shut, and nothing else is written to its port.
pub record Sounds (before after : Log) : Type 0 where
  pub on : ℕ
  pub off : ℕ
  pub gate : written 0x61 after ≡ written 0x61 before ++ on ∷ off ∷ []
  pub opened : gate_of on ≡ 3
  pub shut : gate_of off ≡ 0

pub Sounds-within :
    {a b c d : Log}
    → written 0x61 b ≡ written 0x61 a
    → Sounds b c
    → written 0x61 d ≡ written 0x61 c
    → Sounds a d
Sounds-within start s end = record {
  on = s.on;
  off = s.off;
  gate = end ∙ s.gate ∙ ap (λ w. w ++ s.on ∷ s.off ∷ []) start;
  opened = s.opened;
  shut = s.shut;
}

-- The same, with all that is written: the mode and the low byte of the count of the timer's channel 2,
-- and around the wait the two values of the gate.
pub record Beeps (before after : Log) : Type 0 where
  pub on : ℕ
  pub off : ℕ
  pub told :
      effects after
      ≡ effects before ++ out 0x43 0xB6 ∷ out 0x42 0xEE ∷ out 0x61 on ∷ out 0x61 off ∷ []
  pub opened : gate_of on ≡ 3
  pub shut : gate_of off ≡ 0

pub Beeps-Sounds : {before after : Log} → Beeps before after → Sounds before after
unfolding written
Beeps-Sounds {before} {after} b = record {
  on = b.on;
  off = b.off;
  gate =
      sym (written-effects 0x61 after (omega arith) (omega arith))
      ∙ ap (written 0x61) b.told
      ∙ written-append 0x61 (effects before) _
      ∙ ap (λ w. w ++ b.on ∷ b.off ∷ []) (written-effects 0x61 before (omega arith) (omega arith));
  opened = b.opened;
  shut = b.shut;
}

-- Channel 2 has half of its count and waits for the rest.
abbrev pub half_counting : Counter
half_counting = record { access = 3; mode = 3; low = some 0xEE; count = none }

pub Beeps-half_counting :
    {before after : Log} → Beeps before after → (c : Counter) → run (tell 2) after c ≡ half_counting
unfolding run tell
Beeps-half_counting {before} {after} b c =
    sym (run-effects (tell 2) (λ e c none_of. tell-still 2 e c (omega arith) none_of) after c)
    ∙ ap (λ l. run (tell 2) l c) b.told
    ∙ run-append (tell 2) (effects before) _ c

-- One beep: the gate keeps the other bits of its port, and two seconds go by.
pub record Beeped (bus : Bus) (s t : System) : Type 0 where
  pub beeps : Beeps s.log t.log
  pub kept : beeps.on / 4 ≡ bus 0x61 (outb 0x42 0xEE (outb 0x43 0xB6 s.log)) % 256 / 4
  pub channel : (c : Counter) → run (tell 2) t.log c ≡ half_counting
  pub ticks : t.timer_ticks ≡ s.timer_ticks + 2000
  pub said : visible t.log ≡ visible s.log

-- Where only the timer's routine is installed, no exception arrives and the timer interrupts at least
-- 2000 times, below 2^64, Speaker_Beep gets to its end. Apart from commands to the interrupt
-- controllers, which do not set them up anew, it writes exactly four bytes: the mode and the low byte
-- of the count of the timer's channel 2, then to port 0x61 the answer of that port with both bits of
-- the gate set, and at last there a value with both clear. Channel 2 then has half of its count, in
-- whatever state it was; the count of ticks is 2000 higher, and the screen has got no message.
pub speaker_beep-Beeped :
    (bus : Bus) (msgs : ℕ → ℕ) (arriving : List Context) (s : System)
    → IsAlone s
    → IsQuiet arriving
    → s.timer_ticks + 2000 < 2 ^ 64
    → 2000 ≤ ticks_of arriving
    → Returns (λ (t, left). Beeped bus s t) (speaker_beep bus msgs arriving s)
unfolding speaker_beep effects is_effect visible
speaker_beep-Beeped bus msgs arriving s a q fits enough =
    Returns-bind
      (waited bus msgs 2000 arriving (record s { log = _ }) (IsAlone-as refl a) q fits enough)
      λ (t, left) (at, used, quiet, same).
        let before = u8 (bus 0x61 (outb 0x42 0xEE (outb 0x43 0xB6 s.log))) in
        let after = u8 (bus 0x61 t.log) in
        let (fits_on, opened, kept) = bit_or-gate before (omega arith) in
        let shut = bit_and-gate after (omega arith) in
        let beeps : Beeps s.log (outb 0x61 (bit_and after 0xFC) (inb bus 0x61 t.log).1) = record {
          on = u8 (bit_or before 0x03);
          off = u8 (bit_and after 0xFC);
          told =
              simp effects-append
                (rw same.idle (simp (effects-append, append_assoc, append-nil) refl));
          opened = omega (arith, fits_on, opened);
          shut = omega (arith, shut);
        } in
        (
          _,
          refl,
          record {
            beeps = beeps;
            kept = omega (arith, fits_on, kept);
            channel = Beeps-half_counting beeps;
            ticks = at;
            said =
                simp visible-append
                  (rw same.said (simp (visible-append, append_assoc, append-nil) refl));
          },
        )
