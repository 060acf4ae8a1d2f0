-- ===== src/Kernel/Pit/Counter.antt =====
-- A counter of the timer as its data sheet has it, against PIT_8254_Phase.
use free_micro_nix.Base.{
  ℕ, ◌+◌, ◌*◌, ◌/◌, ◌%◌, ◌<◌, ◌≡◌, refl, false, Option, none, some, arith, ◌==◌, if◌then◌else◌,
}
use free_micro_nix.Kernel.Port.{
  Event, out, inp, out_word, out_double, inp_word, inp_double, lgdt, lidt, ltr, cli, sti, hlt,
  printed, colored, terminal_initialized,
}
use free_micro_nix.Kernel.Port.Device.{is_effect}

-- How the count is written, by its low byte, its high byte or both, and how the counter counts. Of two
-- bytes, the low one comes first; `count` is there once all of it is written.
pub record Counter : Type 0 where
  pub access : ℕ
  pub mode : ℕ
  pub low : Option ℕ
  pub count : Option ℕ

-- A command for this counter, unless it only holds the count for a reading.
unfoldable pub set_mode : ℕ → Counter → Counter
set_mode value c =
    if value / 16 % 4 == 0
    then c
    else record { access = value / 16 % 4; mode = value / 2 % 8; low = none; count = none }

unfoldable pub take_byte : ℕ → Counter → Counter
take_byte value c =
    if c.access == 1
    then record c { count = some value }
    else if c.access == 2
    then record c { count = some (value * 256) }
    else elim c.low [
      | none ↦ record c { low = some value }
      | some low ↦ record c { low = none; count = some (value * 256 + low) }
    ]

-- The counter with a number from 0 to 2.
unfoldable pub tell : ℕ → Event → Counter → Counter
unfolding set_mode take_byte
tell number (out port value) c =
    if port == 0x43
    then (if value / 64 == number then set_mode value c else c)
    else if port == 0x40 + number
    then take_byte value c
    else c
tell number e c = c

-- Both bytes, as a square wave.
abbrev pub counting : ℕ → Counter
counting count = record { access = 3; mode = 3; low = none; count = some count }

-- Only effects change a counter.
pub tell-still :
    (number : ℕ) (e : Event) (c : Counter) → number < 3 → is_effect e ≡ false → tell number e c ≡ c
unfolding tell is_effect
tell-still number (out port value) c few none_of = ground arith
tell-still number (inp p) c few none_of = refl
tell-still number (out_word p v) c few none_of = refl
tell-still number (out_double p v) c few none_of = refl
tell-still number (inp_word p) c few none_of = refl
tell-still number (inp_double p) c few none_of = refl
tell-still number (lgdt l a) c few none_of = refl
tell-still number (lidt l a) c few none_of = refl
tell-still number (ltr s) c few none_of = refl
tell-still number cli c few none_of = refl
tell-still number sti c few none_of = refl
tell-still number hlt c few none_of = refl
tell-still number (printed f vs) c few none_of = refl
tell-still number (colored d) c few none_of = refl
tell-still number terminal_initialized c few none_of = refl
