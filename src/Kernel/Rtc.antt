-- ===== src/Kernel/Rtc.antt =====
-- kernel/x86/rtc.c: the reading of the time of day. The handler is `rtc_tick` of Interrupt, and
-- Initialize_RTC is in Entry.
pub mod Decode
pub mod Update
use free_micro_nix.Base.{
  ℕ, zero, suc, ◌+◌, ◌*◌, ◌/◌, ◌%◌, bit_and, bit_or, Bool, not, ◌&&◌, ◌||◌, Option, none, some, ltb,
  ◌==◌, if◌then◌else◌, Run, ok, fault, timeout, u8, u32, ◌>>=◌,
}
use free_micro_nix.Kernel.Port.{Bus, Log, outb, inb}

pub record RtcTime : Type 0 where
  pub second : ℕ
  pub minute : ℕ
  pub hour : ℕ
  pub day : ℕ
  pub month : ℕ
  pub year : ℕ

abbrev pub sizeof_rtc_time : ℕ
sizeof_rtc_time = 12

abbrev pub current_year : ℕ
current_year = 2016

-- The pointer `rtc_current`, and the structure that stands at an address, `none` where there is no
-- memory.
pub record Rtc : Type 0 where
  pub rtc_current : ℕ
  pub times : ℕ → Option RtcTime
  pub log : Log

-- The condition of the `do` loop; nothing ever sets `last_day`, and `last_century` is `century`.
unfoldable pub changed : ℕ → RtcTime → RtcTime → Bool
changed last_day last now =
    not (last.second == now.second)
    || not (last.minute == now.minute)
    || not (last.hour == now.hour)
    || not (last_day == now.day)
    || not (last.month == now.month)
    || not (last.year == now.year)

module _ (bus : Bus) where
  unfoldable pub rtc_get_register : ℕ → Log → ℕ × Log
  rtc_get_register reg log = inb bus 0x71 (outb 0x70 reg log)

  unfoldable pub rtc_get_update_in_progress_flag : Log → ℕ × Log
  rtc_get_update_in_progress_flag log =
      let (value, log) = inb bus 0x71 (outb 0x70 0x0A log) in (bit_and value 0x80, log)

  -- `while (RTC_Get_Update_In_Progress_Flag());`
  unfoldable pub wait_update : ℕ → Log → Run Log
  unfolding rtc_get_update_in_progress_flag
  wait_update zero log = timeout
  wait_update (suc f) log =
      let (flag, log) = rtc_get_update_in_progress_flag log in
      let rest = wait_update f log in if flag == 0 then ok log else rest

  -- The six registers, into the structure that held `old`.
  unfoldable pub read_time : RtcTime → Log → RtcTime × Log
  unfolding rtc_get_register
  read_time old log =
      let (second, log) = rtc_get_register 0x00 log in
      let (minute, log) = rtc_get_register 0x02 log in
      let (hour, log) = rtc_get_register 0x04 log in
      let (day, log) = rtc_get_register 0x07 log in
      let (month, log) = rtc_get_register 0x08 log in
      let (year, log) = rtc_get_register 0x09 log in
      (
        record old {
          second = second;
          minute = minute;
          hour = hour;
          day = day;
          month = month;
          year = year;
        },
        log,
      )

  unfoldable pub stable_time : ℕ → ℕ → RtcTime → Log → Run (RtcTime × Log)
  unfolding wait_update read_time changed
  stable_time last_day zero last log = timeout
  stable_time last_day (suc f) last log = do
    log ← wait_update (suc f) log
    let (now, log) = read_time last log
    let rest = stable_time last_day f now log
    if changed last_day last now then rest else ok (now, log)

-- `(x & 0x0F) + ((x / 16) * 10)`
unfoldable pub from_bcd : ℕ → ℕ
from_bcd x = bit_and x 0x0F + x / 16 * 10

-- The decoding of all fields but the year's century.
unfoldable pub decode_time : RtcTime → RtcTime
unfolding from_bcd
decode_time t = record t {
  second = u8 (from_bcd t.second);
  minute = u8 (from_bcd t.minute);
  hour = u8 (bit_or (bit_and t.hour 0x0F + bit_and t.hour 0x70 / 16 * 10) (bit_and t.hour 0x80));
  day = u8 (bit_and t.day 0x0F + bit_and t.day 0x70 / 16 * 10);
  month = u8 (from_bcd t.month);
  year = from_bcd t.year;
}

-- The afternoon hours of a clock in 12-hour mode. The code does this twice.
unfoldable pub afternoon : ℕ → RtcTime → RtcTime
afternoon register_b t =
    if bit_and register_b 0x02 == 0 && not (bit_and t.hour 0x80 == 0)
    then record t { hour = (bit_and t.hour 0x7F + 12) % 24 }
    else t

abbrev pub put_time : ℕ → RtcTime → Rtc → Rtc
put_time p t s = record s { times = λ a. if a == p then some t else s.times a }

-- The end: the pointer goes on by 2000 structures, and the year of what stands there is corrected.
unfoldable pub move_on : Rtc → Run Rtc
move_on s =
    let p = u32 (s.rtc_current + current_year / 100 * 100 * sizeof_rtc_time) in
    let moved : Rtc = record s { rtc_current = p } in
    elim (s.times p) [
      | none ↦ fault
      | some t ↦ ok (
          if ltb t.year current_year
          then put_time p (record t { year = u32 (t.year + 100) }) moved
          else moved)
    ]

-- What follows the loops: the decoding of the last reading, and the end.
unfoldable pub settle : Bus → Rtc → RtcTime × Log → Run Rtc
settle bus s (now, log) =
    let (register_b, log) = rtc_get_register bus 0x0B log in
    let decoded = if bit_and register_b 0x04 == 0 then decode_time now else now in
    let t = afternoon register_b (afternoon register_b decoded) in
    move_on (put_time s.rtc_current t (record s { log = log }))

-- `last_day` is what the variable holds that is never set.
unfoldable pub rtc_update : Bus → ℕ → ℕ → Rtc → Run Rtc
rtc_update bus last_day f s = do
  log ← wait_update bus f s.log
  old ← elim (s.times s.rtc_current) [ none ↦ fault | some t ↦ ok t ]
  let (first, log) = read_time bus old log
  reading ← stable_time bus last_day f first log
  settle bus s reading

unfoldable pub rtc_get_current_time : Rtc → ℕ
rtc_get_current_time s = s.rtc_current
