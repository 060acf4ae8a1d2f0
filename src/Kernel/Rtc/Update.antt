-- ===== src/Kernel/Rtc/Update.antt =====
-- RTC_Update on a clock whose registers stand still.
use free_micro_nix.Base.{
  ℕ, zero, suc, ◌+◌, ◌^◌, ◌<◌, bit_and, ◌≡◌, refl, ◌∙◌, ◌≢◌, inl, inr, Bool, false, not, some, [],
  ◌∷◌, ◌++◌, arith, ltb, ◌==◌, if◌then◌else◌, Bool-cases, Run, Returns, Returns-bind, ok, timeout,
  u8, u32,
}
use free_micro_nix.Kernel.Port.{Bus, Log, out}
use free_micro_nix.Kernel.Rtc.{
  RtcTime, Rtc, rtc_get_register, rtc_get_update_in_progress_flag, wait_update, read_time, changed,
  stable_time, settle, put_time, move_on, rtc_update,
}
use free_micro_nix.Kernel.Rtc.Decode.{Shows, registers, decoded-told, hour_decoded}

-- The registers answer the same whenever they are asked, and no update is in progress.
pub record IsSteady (bus : Bus) (r : ℕ → ℕ) : Type 0 where
  pub answer : (log : Log) (reg : ℕ) → u8 (bus 0x71 (log ++ out 0x70 reg ∷ [])) ≡ r reg
  pub idle : bit_and (r 0x0A) 0x80 ≡ 0

module _ (bus : Bus) (r : ℕ → ℕ) (steady : IsSteady bus r) where
  wait_update-steady :
      (f : ℕ) (log : Log) → Returns (λ log'. Unit {0}) (wait_update bus (suc f) log)
  unfolding wait_update rtc_get_update_in_progress_flag
  wait_update-steady f log = rw (steady.answer log 0x0A) (rw steady.idle (_, refl, tt))

  read_time-steady : (old : RtcTime) (log : Log) → (read_time bus old log).0 ≡ registers r
  unfolding read_time rtc_get_register
  read_time-steady old log = simp steady.answer refl

  -- What the loop does with a reading `p` behind the same reading.
  abbrev again : ℕ → ℕ → RtcTime × Log → Run (RtcTime × Log)
  again last_day f p =
      if changed last_day (registers r) p.0
      then stable_time bus last_day f p.0 p.1
      else ok (p.0, p.1)

  stable_time-again :
      (last_day f : ℕ) (log : Log)
      → (log' : Log) × (stable_time bus last_day (suc f) (registers r) log
          ≡ again last_day f (read_time bus (registers r) log'))
  unfolding stable_time
  stable_time-again last_day f log =
      let (log', run, _) = wait_update-steady f log in (log', rw run refl)

  changed-registers :
      (last_day : ℕ) → changed last_day (registers r) (registers r) ≡ not (last_day == r 0x07)
  unfolding changed
  changed-registers last_day = ground arith

  again-stops :
      (last_day f : ℕ) (p : RtcTime × Log)
      → p.0 ≡ registers r
      → r 0x07 ≡ last_day
      → again last_day f p ≡ ok p
  again-stops last_day f p same day = rw same (rw (changed-registers last_day) ground arith)

  again-goes_on :
      (last_day f : ℕ) (p : RtcTime × Log)
      → p.0 ≡ registers r
      → r 0x07 ≢ last_day
      → again last_day f p ≡ stable_time bus last_day f (registers r) p.1
  again-goes_on last_day f p same day = rw same (rw (changed-registers last_day) ground arith)

  stable_time-steady :
      (last_day f : ℕ) (log : Log)
      → r 0x07 ≡ last_day
      → Returns
          (λ (now, log'). now ≡ registers r)
          (stable_time bus last_day (suc f) (registers r) log)
  stable_time-steady last_day f log day =
      let (log', round) = stable_time-again last_day f log in
      let same = read_time-steady (registers r) log' in
      (_, round ∙ again-stops last_day f (read_time bus (registers r) log') same day, same)

  stable_time-endless :
      (last_day f : ℕ) (log : Log)
      → r 0x07 ≢ last_day
      → stable_time bus last_day f (registers r) log ≡ timeout
  unfolding stable_time
  stable_time-endless last_day zero log day = refl
  stable_time-endless last_day (suc f) log day =
      let (log', round) = stable_time-again last_day f log in
      let p = read_time bus (registers r) log' in
      round
      ∙ again-goes_on last_day f p (read_time-steady (registers r) log') day
      ∙ stable_time-endless last_day f p.1 day

-- RTC_Update has put the time `t` where the pointer was, and has moved the pointer on to `there`; the
-- correction of the year is made there.
pub record Updated (s : Rtc) (t there : RtcTime) (s' : Rtc) : Type 0 where
  pub told : s'.times s.rtc_current ≡ some t
  pub pointer : s'.rtc_current ≡ u32 (s.rtc_current + 24000)
  pub corrected :
      s'.times s'.rtc_current
      ≡ some (if ltb there.year 2016 then record there { year = u32 (there.year + 100) } else there)
  pub others : (a : ℕ) → a ≢ s.rtc_current → a ≢ s'.rtc_current → s'.times a ≡ s.times a

move_on-Updated :
    (s : Rtc) (t there : RtcTime) (log : Log)
    → s.rtc_current < 2 ^ 32
    → s.times (u32 (s.rtc_current + 24000)) ≡ some there
    → Returns (Updated s t there) (move_on (put_time s.rtc_current t (record s { log = log })))
unfolding move_on
move_on-Updated s t there log lt next =
    let p = u32 (s.rtc_current + 24000) in
    let apart : (p == s.rtc_current) ≡ false = ground arith in
    rw (move_on, apart)
      (rw next (elim (Bool-cases (ltb there.year 2016)) [
        | inl old ↦ rw old (
          _,
          refl,
          record {
            told = ground arith;
            pointer = refl;
            corrected = ground arith;
            others = λ a ne ne2. ground arith;
          },
        )
        | inr new ↦ rw new (
          _,
          refl,
          record {
            told = ground arith;
            pointer = refl;
            corrected = ground arith;
            others = λ a ne ne2. ground arith;
          },
        )
      ]))

settle-Updated :
    (bus : Bus) (r : ℕ → ℕ) (binary pm : Bool) (t there : RtcTime) (s : Rtc) (p : RtcTime × Log)
    → IsSteady bus r
    → Shows r binary pm t
    → s.rtc_current < 2 ^ 32
    → s.times (u32 (s.rtc_current + 24000)) ≡ some there
    → p.0 ≡ registers r
    → Returns (Updated s (record t { hour = hour_decoded pm t.hour }) there) (settle bus s p)
unfolding settle rtc_get_register
settle-Updated bus r binary pm t there s p steady shows low next same =
    rw (steady.answer p.1 0x0B) (
      rw same (
        rw (decoded-told r binary pm t shows)
          (move_on-Updated s (record t { hour = hour_decoded pm t.hour }) there _ low next)))

-- On a clock whose registers stand still and show a time, in either mode, if the variable last_day, that
-- the code never sets, happens to hold the register of the day, RTC_Update returns for any fuel but 0.
-- It has put the time where the pointer rtc_current was, the hour moved by 12 and wrapped at 24 in the
-- afternoon; it has moved the pointer on by 2000 structures, and corrected the year of what stands there
-- and not that of the time. This needs memory at both places.
pub rtc_update-Updated :
    (bus : Bus) (r : ℕ → ℕ) (binary pm : Bool) (t : RtcTime) (last_day f : ℕ) (s : Rtc)
    (old there : RtcTime)
    → IsSteady bus r
    → Shows r binary pm t
    → r 0x07 ≡ last_day
    → 0 < f
    → s.rtc_current < 2 ^ 32
    → s.times s.rtc_current ≡ some old
    → s.times (u32 (s.rtc_current + 24000)) ≡ some there
    → Returns
        (Updated s (record t { hour = hour_decoded pm t.hour }) there)
        (rtc_update bus last_day f s)
unfolding rtc_update
rtc_update-Updated bus r binary pm t last_day zero s old there steady shows day fuel low here next =
    absurd (omega arith)
rtc_update-Updated bus r binary pm t last_day (suc f) s old there steady shows day fuel low here
      next =
    Returns-bind (wait_update-steady bus r steady f s.log) λ log _.
      let first = read_time bus old log in
      rw here (
        Returns-bind
          (rw (read_time-steady bus r steady old log)
            (stable_time-steady bus r steady last_day f first.1 day))
          λ p same. settle-Updated bus r binary pm t there s p steady shows low next same)

-- On a clock whose registers stand still and with memory at the place that rtc_current points to, if
-- last_day holds anything but the register of the day, RTC_Update uses up whatever fuel it is given.
pub rtc_update-endless :
    (bus : Bus) (r : ℕ → ℕ) (last_day f : ℕ) (s : Rtc) (old : RtcTime)
    → IsSteady bus r
    → r 0x07 ≢ last_day
    → s.times s.rtc_current ≡ some old
    → rtc_update bus last_day f s ≡ timeout
unfolding rtc_update wait_update
rtc_update-endless bus r last_day zero s old steady day here = refl
rtc_update-endless bus r last_day (suc f) s old steady day here =
    let (log, run, _) = wait_update-steady bus r steady f s.log in
    let first = read_time bus old log in
    let stuck : stable_time bus last_day (suc f) first.0 first.1 ≡ timeout =
      rw (read_time-steady bus r steady old log)
        (stable_time-endless bus r steady last_day (suc f) first.1 day) in
    rw run (rw here (rw stuck refl))
