-- ===== src/Tests/Time.antt =====
-- RTC_Update on a clock in 12-hour mode that shows 10:15:30 in the evening of November 25.
use free_micro_nix.Base.{
  ℕ, ◌<◌, ◌≡◌, refl, true, false, some, [], ◌∷◌, ◌++◌, arith, ◌==◌, if◌then◌else◌, Returns, timeout,
}
use free_micro_nix.Kernel.Port.{Bus, Log, Event, out}
use free_micro_nix.Kernel.Rtc.{RtcTime, Rtc, rtc_update}
use free_micro_nix.Kernel.Rtc.Decode.{Shows}
use free_micro_nix.Kernel.Rtc.Update.{IsSteady, Updated, rtc_update-Updated, rtc_update-endless}

-- The registers in decimal digits; the top bit of the hours is set.
abbrev evening : ℕ → ℕ
evening reg =
    if reg == 0
    then 0x30
    else if reg == 2
    then 0x15
    else if reg == 4
    then 0x90
    else if reg == 7
    then 0x25
    else if reg == 8
    then 0x11
    else if reg == 9
    then 0x26
    else 0

-- The register that was selected last.
unfoldable chosen : ℕ → Event → ℕ
chosen reg (out port value) = value
chosen reg e = reg

unfoldable selected : ℕ → Log → ℕ
selected reg [] = reg
selected reg (e ∷ log) = selected (chosen reg e) log

selected_last : (log : Log) (reg value : ℕ) → selected reg (log ++ out 0x70 value ∷ []) ≡ value
unfolding selected chosen
selected_last [] reg value = refl
selected_last (e ∷ log) reg value = selected_last log (chosen reg e) value

abbrev clock : Bus
clock port log = evening (selected 0 log)

evening-lt : (reg : ℕ) → evening reg < 256
evening-lt reg = ground arith

clock-IsSteady : IsSteady clock evening
clock-IsSteady = record {
  answer = λ log reg. rw (selected_last log 0 reg) (omega (arith, evening-lt reg));
  idle = refl;
}

abbrev shown_time : RtcTime
shown_time = record { second = 30; minute = 15; hour = 10; day = 25; month = 11; year = 26 }

evening-Shows : Shows evening false true shown_time
evening-Shows = record {
  binary_mode = refl;
  hour_mode = λ e. refl;
  second = (refl, omega arith);
  minute = (refl, omega arith);
  hour = (refl, omega arith);
  day = (refl, omega arith);
  month = (refl, omega arith);
  year = (refl, omega arith);
}

abbrev midnight : RtcTime
midnight = record { second = 0; minute = 0; hour = 0; day = 1; month = 1; year = 0 }

abbrev memory : Rtc
memory = record { rtc_current = 0x200000; times = λ a. some midnight; log = [] }

rtc_update-Updated_example :
    Returns
      (Updated memory (record shown_time { hour = 22 }) midnight)
      (rtc_update clock 0x25 1 memory)
rtc_update-Updated_example =
    rtc_update-Updated clock evening false true shown_time 0x25 1 memory midnight midnight
      clock-IsSteady evening-Shows refl (omega arith) (omega arith) refl refl

rtc_update-endless_example : rtc_update clock 0 1000 memory ≡ timeout
rtc_update-endless_example =
    rtc_update-endless clock evening 0 1000 memory midnight clock-IsSteady (ground arith) refl
