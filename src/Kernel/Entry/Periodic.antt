-- ===== src/Kernel/Entry/Periodic.antt =====
-- The clock's interrupt behind Initialize_RTC.
use free_micro_nix.Base.{
  ℕ, ◌+◌, ◌*◌, ◌/◌, ◌%◌, ◌^◌, ◌<◌, bit_or, ◌≡◌, refl, sym, ap, ◌∙◌, ◌≢◌, true, false, some, [], ◌∷◌,
  ◌++◌, arith, ◌==◌, if◌then◌else◌, Returns, u8,
}
use free_micro_nix.Base.Bits.{bit_or_shifted, bit_or_digit, bit_or-zero}
use free_micro_nix.Kernel.Port.{Bus, Log, outb, inp, say}
use free_micro_nix.Kernel.Port.Device.{run, run-append}
use free_micro_nix.Kernel.Port.Cmos.{Cmos, is_masked, run_cmos, IsCmos, tell}
use free_micro_nix.Kernel.Pic.{pic_eoi_master, pic_eoi_slave}
use free_micro_nix.Kernel.Interrupt.{
  Context, System, rtc_handler, rtc_tick, call, call_if, serve, irq_handler, interrupt_handler,
  back, install_interrupt_handler, enable_interrupts, disable_interrupts,
}
use free_micro_nix.Kernel.Entry.{initialize_rtc}

-- The sixth bit of a byte, and the others.
bit_or-sixth : (v : ℕ) → bit_or v 0x40 ≡ v / 128 * 128 + 64 + v % 64
bit_or-sixth v =
    let shifted = bit_or_shifted 6 (v / 64) 1 (v % 64) (omega arith) in
    let whole : v / 64 * 2 ^ 6 + v % 64 ≡ v = omega arith in
    let top : bit_or (v / 64) 1 ≡ v / 128 * 2 + 1 =
      ground (arith, bit_or_digit (v / 64) 1, bit_or-zero (v / 64 / 2)) in
    ap (λ x. bit_or x 0x40) (sym whole) ∙ shifted ∙ ap (λ x. x * 64 + v % 64) top ∙ omega arith

-- What the chip is told.
run_cmos-told :
    (log : Log) (start : Cmos) (v : ℕ)
    → run_cmos
        (say "Real Time Clock Initialized\n" (
          enable_interrupts (
            outb 0x71 v
              (outb 0x70 0x8B (outb 0x70 0x8B (disable_interrupts log) ++ inp 0x71 ∷ [])))))
        start
      ≡ record {
        selected = 0x8B;
        register = λ i. if i == 0x0B then v % 256 else (run_cmos log start).register i;
      }
unfolding run tell enable_interrupts disable_interrupts
run_cmos-told log start v = simp run-append refl

-- How an interrupt of the clock goes: it is counted, its context stays, and the handler's choice of a
-- register lets the non-maskable interrupt through.
abbrev pub Counted : Bus → (ℕ → ℕ) → Cmos → System → Type 0
Counted bus msgs start t =
    (c : Context)
    → c.int_no ≡ 40
    → (u : System) × (interrupt_handler bus msgs c t ≡ back c u)
      × (u.rtc_ticks ≡ (t.rtc_ticks + 1) % 2 ^ 32)
      × (is_masked (run_cmos u.log start) ≡ false)

rtc_handler-Counted :
    (bus : Bus) (msgs : ℕ → ℕ) (start : Cmos) (t : System)
    → t.routines 40 ≡ some rtc_handler
    → Counted bus msgs start t
unfolding interrupt_handler irq_handler serve call_if call rtc_tick pic_eoi_master pic_eoi_slave run
    tell is_masked
rtc_handler-Counted bus msgs start t here c number =
    rw number (rw here (_, refl, refl, simp run-append refl))

-- What Initialize_RTC leaves: the handler at the clock's vector, and in the chip the periodic interrupt
-- enabled and nothing else changed.
pub record IsPeriodic (bus : Bus) (msgs : ℕ → ℕ) (start : Cmos) (s t : System) : Type 0 where
  pub here : t.routines 40 ≡ some rtc_handler
  pub others : (i : ℕ) → i ≢ 40 → t.routines i ≡ s.routines i
  pub enabled : (run_cmos t.log start).register 0x0B / 64 % 2 ≡ 1
  pub kept :
      let before = (run_cmos s.log start).register 0x0B in
      let after = (run_cmos t.log start).register 0x0B in
      (after % 64 ≡ before % 64) × (after / 128 ≡ before / 128)
  pub registers :
      (i : ℕ) → i ≢ 0x0B → (run_cmos t.log start).register i ≡ (run_cmos s.log start).register i
  pub masked : is_masked (run_cmos t.log start) ≡ true
  pub counted : Counted bus msgs start t

-- On a chip that answers with its registers, register B a byte, Initialize_RTC installs the clock's handler
-- at its vector, keeps the other routines, sets the bit of register B that turns on the periodic
-- interrupt, and changes no other bit and no other register; the non-maskable interrupt is then masked,
-- until the first interrupt of the clock, which is counted and returns to its context.
pub initialize_rtc-IsPeriodic :
    (bus : Bus) (msgs : ℕ → ℕ) (start : Cmos) (s : System)
    → IsCmos bus start
    → (run_cmos s.log start).register 0x0B < 256
    → Returns (λ t. IsPeriodic bus msgs start s t) (initialize_rtc bus s)
unfolding initialize_rtc install_interrupt_handler disable_interrupts run tell is_masked
initialize_rtc-IsPeriodic bus msgs start s answers byte =
    let old = (run_cmos s.log start).register 0x0B in
    let asked = outb 0x70 0x8B (disable_interrupts s.log) in
    let read : u8 (bus 0x71 asked) ≡ old = answers asked ∙ simp run-append (omega arith) in
    let told = run_cmos-told s.log start (u8 (bit_or (u8 (bus 0x71 asked)) 0x40)) in
    let whole : u8 (bit_or (u8 (bus 0x71 asked)) 0x40) % 256 ≡ old / 128 * 128 + 64 + old % 64 =
      rw read (omega (arith, bit_or-sixth old)) in
    (
      _,
      refl,
      record {
        here = refl;
        others = λ i ne. ground arith;
        enabled = rw told (omega (arith, whole));
        kept = rw told (omega (arith, whole), omega (arith, whole));
        registers = λ i ne. rw told (ground arith);
        masked = rw told refl;
        counted = rtc_handler-Counted bus msgs start _ refl;
      },
    )
