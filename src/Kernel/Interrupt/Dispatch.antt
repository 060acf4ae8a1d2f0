-- ===== src/Kernel/Interrupt/Dispatch.antt =====
-- Which routine runs, and what the controllers are told.
use free_micro_nix.Base.{
  ℕ, ◌+◌, ◌*◌, ◌/◌, ◌%◌, bit_and, bit_or, ◌≡◌, refl, sym, ap, ◌∙◌, inl, inr, Bool, true, false, not,
  ◌||◌, Option, none, some, List, [], ◌∷◌, ◌++◌, arith, leb, ◌==◌, if◌then◌else◌, Bool-cases, u8,
  u16,
}
use free_micro_nix.Base.Bits.{bit_and_one, bit_or_low}
use native.Mathlib.Nat.{mul-one}
use mathlib.Core.List.{append_assoc, append-nil}
use free_micro_nix.Kernel.Port.{Bus, Log, out, inp}
use free_micro_nix.Kernel.Port.Commands.{commands, commands-append}
use free_micro_nix.Kernel.Pic.{pic_read, pic_read_isr_register, pic_eoi_master, pic_eoi_slave}
use free_micro_nix.Kernel.Interrupt.{
  Context, Routine, pit_8254_handler, rtc_handler, stu_handler, stk_handler, System, call, spurious,
  serve, irq_handler, stu, stk, tick, rtc_tick, call_if,
}

-- A routine tells the controllers nothing, and leaves the number of the interrupt.
call-commands :
    (bus : Bus) (r : Routine) (c : Context) (s : System)
    → let (c', t) = call bus r c s in (c'.int_no ≡ c.int_no) × (commands t.log ≡ commands s.log)
unfolding call commands tick rtc_tick stu stk
call-commands bus pit_8254_handler c s = (refl, refl)
call-commands bus rtc_handler c s = (refl, simp (commands-append, append_assoc, append-nil))
call-commands bus stu_handler c s = (ground arith, simp (commands-append, append-nil))
call-commands bus stk_handler c s = (ground arith, simp (commands-append, append-nil))

call_if-commands :
    (bus : Bus) (r : Option Routine) (c : Context) (s : System)
    → let (c', t) = call_if bus r c s in (c'.int_no ≡ c.int_no) × (commands t.log ≡ commands s.log)
unfolding call_if
call_if-commands bus none c s = (refl, refl)
call_if-commands bus (some r) c s = call-commands bus r c s

abbrev pub end_at_master : List (ℕ × ℕ)
end_at_master = (0x20, 0x20) ∷ []

-- The ends of an interrupt: the slave's first, if the line is one of its own, then the master's.
abbrev pub ends : ℕ → List (ℕ × ℕ)
ends vector = if leb 40 vector then (0xA0, 0x20) ∷ (0x20, 0x20) ∷ [] else end_at_master

-- What a run of a routine, behind the two tests, tells the controllers.
serve-commands :
    (bus : Bus) (c : Context) (s : System)
    → commands (serve bus c s).1.log ≡ commands s.log ++ ends c.int_no
unfolding serve pic_eoi_slave pic_eoi_master commands
serve-commands bus c s =
    let (same, told) = call_if-commands bus (s.routines c.int_no) c s in
    elim (Bool-cases (leb 40 c.int_no)) [
      | inl from_slave ↦
          rw (same, from_slave)
            (simp (commands-append, append_assoc)
              (ap (λ cs. cs ++ ((0xA0, 0x20) ∷ (0x20, 0x20) ∷ [])) told))
      | inr from_master ↦ rw (same, from_master) (simp (commands-append, told))
    ]

-- Both controllers are asked for their in-service registers.
abbrev pub asking : List (ℕ × ℕ)
asking = (0x20, 0x0B) ∷ (0xA0, 0x0B) ∷ []

-- The log behind that.
abbrev pub asked : Log → Log
asked log = log ++ out 0x20 0x0B ∷ out 0xA0 0x0B ∷ []

-- Bit 7 of a register: the last line of a controller.
abbrev pub last_line : ℕ → Bool
last_line register = register / 128 % 2 == 1

-- A spurious interrupt, by what the controllers answer: the first is the master's in-service register,
-- the second the slave's, and the bit of the last line is clear in it.
unfoldable pub is_lost : Bus → ℕ → Log → Bool
is_lost bus vector log =
    if vector == 39
    then not (last_line (bus 0x20 (asked log)))
    else if vector == 47
    then not (last_line (bus 0xA0 (asked log ++ inp 0x20 ∷ [])))
    else false

spurious-commands :
    (bus : Bus) (bit : ℕ) (log : Log) → commands (spurious bus bit log).1 ≡ commands log ++ asking
unfolding spurious pic_read_isr_register pic_read commands
spurious-commands bus bit log = simp (commands-append, append_assoc, append-nil)

eoi-commands :
    (bus : Bus) (bit : ℕ) (log : Log)
    → commands (pic_eoi_master (spurious bus bit log).1) ≡ commands log ++ (asking ++ end_at_master)
unfolding pic_eoi_master commands
eoi-commands bus bit log = simp (commands-append, spurious-commands bus bit log, append_assoc)

asked-serve :
    (bus : Bus) (bit : ℕ) (c : Context) (s : System)
    → commands (serve bus c (record s { log = (spurious bus bit s.log).1 })).1.log
      ≡ commands s.log ++ (asking ++ ends c.int_no)
asked-serve bus bit c s =
    serve-commands bus c (record s { log = (spurious bus bit s.log).1 })
    ∙ simp (spurious-commands bus bit s.log, append_assoc)

-- A bit of the word that the two answers make.
bit_7 : (a : ℕ) → bit_and a 128 ≡ a / 128 % 2 * 128
bit_7 a = ground (arith, bit_and_one 7 (a / 128) (a % 128) (omega arith))

bit_15 : (a : ℕ) → bit_and a 32768 ≡ a / 32768 % 2 * 32768
bit_15 a = ground (arith, bit_and_one 15 (a / 32768) (a % 32768) (omega arith))

answers : (low high : ℕ) → u16 (bit_or (u8 low * 1) (u8 high * 256)) ≡ u8 high * 256 + u8 low
answers low high =
    rw (mul-one (u8 low)) (omega (arith, bit_or_low 8 (u8 high) (u8 low) (omega arith)))

tested_7 :
    (low high : ℕ)
    → (bit_and (u16 (bit_or (u8 low * 1) (u8 high * 256))) 128 == 0) ≡ not (last_line low)
tested_7 low high = rw (answers low high) (ground (arith, bit_7 (u8 high * 256 + u8 low)))

tested_15 :
    (low high : ℕ)
    → (bit_and (u16 (bit_or (u8 low * 1) (u8 high * 256))) 32768 == 0) ≡ not (last_line high)
tested_15 low high = rw (answers low high) (ground (arith, bit_15 (u8 high * 256 + u8 low)))

spurious-is_lost_7 : (bus : Bus) (log : Log) → (spurious bus 7 log).0 ≡ is_lost bus 39 log
unfolding spurious pic_read_isr_register pic_read is_lost
spurious-is_lost_7 bus log = simp append_assoc (
    tested_7 (bus 0x20 (asked log))
      (bus 0xA0 (log ++ out 0x20 0x0B ∷ out 0xA0 0x0B ∷ inp 0x20 ∷ [])))

spurious-is_lost_15 : (bus : Bus) (log : Log) → (spurious bus 15 log).0 ≡ is_lost bus 47 log
unfolding spurious pic_read_isr_register pic_read is_lost
spurious-is_lost_15 bus log = simp append_assoc (
    tested_15 (bus 0x20 (asked log))
      (bus 0xA0 (log ++ out 0x20 0x0B ∷ out 0xA0 0x0B ∷ inp 0x20 ∷ [])))

-- What the controllers are told of an interrupt: it is asked for the last line of either only.
unfoldable pub conversation : Bus → ℕ → Log → List (ℕ × ℕ)
conversation bus vector log =
    (if vector == 39 || vector == 47 then asking else [])
    ++ (if is_lost bus vector log
        then (if vector == 47 then end_at_master else [])
        else ends vector)

conversation_7 :
    (bus : Bus) (vector : ℕ) (log : Log)
    → vector ≡ 39
    → ((spurious bus 7 log).0 ≡ true → conversation bus vector log ≡ asking)
      × ((spurious bus 7 log).0 ≡ false → conversation bus vector log ≡ asking ++ ends vector)
unfolding conversation
conversation_7 bus vector log at =
    let bit = spurious-is_lost_7 bus log in
    (λ lost. rw (at, sym bit ∙ lost) refl, λ real. rw (at, sym bit ∙ real) refl)

conversation_15 :
    (bus : Bus) (vector : ℕ) (log : Log)
    → vector ≡ 47
    → ((spurious bus 15 log).0 ≡ true → conversation bus vector log ≡ (asking ++ end_at_master))
      × ((spurious bus 15 log).0 ≡ false → conversation bus vector log ≡ asking ++ ends vector)
unfolding conversation
conversation_15 bus vector log at =
    let bit = spurious-is_lost_15 bus log in
    (λ lost. rw (at, sym bit ∙ lost) refl, λ real. rw (at, sym bit ∙ real) refl)

conversation_other :
    (bus : Bus) (vector : ℕ) (log : Log)
    → (vector == 39) ≡ false
    → (vector == 47) ≡ false
    → conversation bus vector log ≡ ends vector
unfolding conversation is_lost
conversation_other bus vector log not_7 not_15 = rw (not_7, not_15) refl

-- `IRQ_Handler` tells the controllers at their command ports exactly this, in this order, whichever
-- routine is installed. For the lines 7 and 15 it asks the master and the slave for their in-service
-- registers; for no other line does it. Where the answer for the line's own controller has the bit of
-- its last line clear, it then ends the interrupt at the master for line 15 and nowhere for line 7.
-- Otherwise it ends it at the slave, if the line is one of the slave's, and then at the master.
pub irq_handler-commands :
    (bus : Bus) (c : Context) (s : System)
    → commands (irq_handler bus c s).1.log ≡ commands s.log ++ conversation bus c.int_no s.log
unfolding irq_handler
irq_handler-commands bus c s = elim (Bool-cases (c.int_no == 39)) [
  | inl seven ↦
      let (quiet, loud) = conversation_7 bus c.int_no s.log (ground arith) in
      rw seven (elim (Bool-cases (spurious bus 7 s.log).0) [
        | inl lost ↦ rw (lost, quiet lost) (spurious-commands bus 7 s.log)
        | inr real ↦ rw (real, loud real) (asked-serve bus 7 c s)
      ])
  | inr not_seven ↦ rw not_seven (elim (Bool-cases (c.int_no == 47)) [
    | inl fifteen ↦
        let (quiet, loud) = conversation_15 bus c.int_no s.log (ground arith) in
        rw fifteen (elim (Bool-cases (spurious bus 15 s.log).0) [
          | inl lost ↦ rw (lost, quiet lost) (eoi-commands bus 15 s.log)
          | inr real ↦ rw (real, loud real) (asked-serve bus 15 c s)
        ])
    | inr plain ↦
        rw (plain, conversation_other bus c.int_no s.log not_seven plain) (serve-commands bus c s)
  ])
]
