-- ===== src/Kernel/Rtc/Decode.antt =====
-- What the decoding of rtc.c does to the registers of a clock.
use free_micro_nix.Base.{
  ℕ, ◌+◌, ◌*◌, ◌/◌, ◌%◌, ◌^◌, ◌<◌, bit_and, bit_or, ◌≡◌, refl, ap, ◌∙◌, Bool, true, false, not,
  arith, ◌==◌, if◌then◌else◌, u8,
}
use free_micro_nix.Base.Bits.{bit_and_mask, bit_and_digit, bit_or_low}
use native.Mathlib.Nat.{add-zero}
use free_micro_nix.Kernel.Rtc.{RtcTime, from_bcd, decode_time, afternoon}

-- A number as the clock's registers hold it: as it is, or a decimal digit in each half of the byte.
abbrev pub encoded : Bool → ℕ → ℕ
encoded binary n = if binary then n else n / 10 * 16 + n % 10

-- The register of the hours. In the afternoon of a clock in 12-hour mode its top bit is set.
abbrev pub hour_encoded : Bool → Bool → ℕ → ℕ
hour_encoded binary pm n = encoded binary n + (if pm then 128 else 0)

-- What becomes of the hours.
abbrev pub hour_decoded : Bool → ℕ → ℕ
hour_decoded pm n = if pm then (n + 12) % 24 else n

from_bcd-encoded : (n : ℕ) → n < 100 → from_bcd (encoded false n) ≡ n
unfolding from_bcd
from_bcd-encoded n lt = ground (arith, bit_and_mask 4 (encoded false n))

bit_and_tens : (x : ℕ) → x < 256 → bit_and x 0x70 ≡ x / 16 % 8 * 16
bit_and_tens x lt = ground (
  arith,
  bit_and_digit x 0x70,
  bit_and_digit (x / 2) 0x38,
  bit_and_digit (x / 2 / 2) 0x1C,
  bit_and_digit (x / 2 / 2 / 2) 0x0E,
  bit_and_mask 3 (x / 2 / 2 / 2 / 2),
)

bit_and_top : (x : ℕ) → x < 256 → bit_and x 0x80 ≡ x / 128 * 128
bit_and_top x lt = ground (
  arith,
  bit_and_digit x 0x80,
  bit_and_digit (x / 2) 0x40,
  bit_and_digit (x / 2 / 2) 0x20,
  bit_and_digit (x / 2 / 2 / 2) 0x10,
  bit_and_digit (x / 2 / 2 / 2 / 2) 0x08,
  bit_and_digit (x / 2 / 2 / 2 / 2 / 2) 0x04,
  bit_and_digit (x / 2 / 2 / 2 / 2 / 2 / 2) 0x02,
  bit_and_mask 1 (x / 2 / 2 / 2 / 2 / 2 / 2 / 2),
)

day_of :
    (n : ℕ) → n < 80 → bit_and (encoded false n) 0x0F + bit_and (encoded false n) 0x70 / 16 * 10 ≡ n
day_of n lt =
    ground (arith, bit_and_mask 4 (encoded false n), bit_and_tens (encoded false n) (omega arith))

hour_of :
    (n top : ℕ)
    → n < 80
    → top < 2
    → let x = encoded false n + top * 128 in
      u8 (bit_or (bit_and x 0x0F + bit_and x 0x70 / 16 * 10) (bit_and x 0x80)) ≡ n + top * 128
hour_of n top lt low =
    let x = encoded false n + top * 128 in
    let bits = bit_and_mask 4 x in
    let tens = bit_and_tens x (omega arith) in
    let top_bit = bit_and_top x (omega arith) in
    let sum : bit_and x 0x0F + bit_and x 0x70 / 16 * 10 ≡ n = omega (arith, bits, tens) in
    let flag : bit_and x 0x80 ≡ top * 2 ^ 7 = omega (arith, top_bit) in
    rw sum (rw flag (omega (arith, bit_or_low 7 top n (omega arith))))

-- What the registers `r` of a clock show: the time `t`, whose hour is less by 12 in the afternoon of a clock
-- in 12-hour mode.
pub record Shows (r : ℕ → ℕ) (binary pm : Bool) (t : RtcTime) : Type 0 where
  pub binary_mode : (bit_and (r 0x0B) 0x04 == 0) ≡ not binary
  pub hour_mode : pm ≡ true → bit_and (r 0x0B) 0x02 ≡ 0
  pub second : (r 0x00 ≡ encoded binary t.second) × (t.second < 60)
  pub minute : (r 0x02 ≡ encoded binary t.minute) × (t.minute < 60)
  pub hour : (r 0x04 ≡ hour_encoded binary pm t.hour) × (t.hour < 24)
  pub day : (r 0x07 ≡ encoded binary t.day) × (t.day < 32)
  pub month : (r 0x08 ≡ encoded binary t.month) × (t.month < 13)
  pub year : (r 0x09 ≡ encoded binary t.year) × (t.year < 100)

-- The registers as a structure.
abbrev pub registers : (ℕ → ℕ) → RtcTime
registers r = record {
  second = r 0x00;
  minute = r 0x02;
  hour = r 0x04;
  day = r 0x07;
  month = r 0x08;
  year = r 0x09;
}

abbrev pub decoded : ℕ → RtcTime → RtcTime
decoded register_b now = if bit_and register_b 0x04 == 0 then decode_time now else now

decoded-Shows :
    (r : ℕ → ℕ) (binary pm : Bool) (t : RtcTime)
    → Shows r binary pm t
    → decoded (r 0x0B) (registers r) ≡ record t { hour = t.hour + (if pm then 128 else 0) }
unfolding decode_time
decoded-Shows r true pm t s =
    rw s.binary_mode
      (rw s.second.0 (rw s.minute.0 (rw s.hour.0 (rw s.day.0 (rw s.month.0 (rw s.year.0 refl))))))
decoded-Shows r false pm t s =
    let hours = hour_read (r 0x04) t.hour pm s.hour.0 (omega (arith, s.hour)) in
    let days = day_read (r 0x07) t.day s.day.0 (omega (arith, s.day)) in
    rw s.binary_mode (
      rw (byte_read (r 0x00) t.second s.second.0 (omega (arith, s.second))) (
        rw (byte_read (r 0x02) t.minute s.minute.0 (omega (arith, s.minute))) (
          rw (byte_read (r 0x08) t.month s.month.0 (omega (arith, s.month)))
            (rw (number_read (r 0x09) t.year s.year.0 s.year.1) (rw hours (rw days refl))))))
  where
    number_read : (x n : ℕ) → x ≡ encoded false n → n < 100 → from_bcd x ≡ n
    number_read x n same lt = rw same (from_bcd-encoded n lt)

    byte_read : (x n : ℕ) → x ≡ encoded false n → n < 100 → u8 (from_bcd x) ≡ n
    byte_read x n same lt = omega (arith, number_read x n same lt)

    day_read :
        (x n : ℕ)
        → x ≡ encoded false n
        → n < 80
        → u8 (bit_and x 0x0F + bit_and x 0x70 / 16 * 10) ≡ n
    day_read x n same lt = rw same (omega (arith, day_of n lt))

    hour_read :
        (x n : ℕ) (pm : Bool)
        → x ≡ hour_encoded false pm n
        → n < 80
        → u8 (bit_or (bit_and x 0x0F + bit_and x 0x70 / 16 * 10) (bit_and x 0x80))
          ≡ n + (if pm then 128 else 0)
    hour_read x n true same lt = rw same (hour_of n 1 lt (omega arith))
    hour_read x n false same lt = rw same (hour_of n 0 lt (omega arith))

-- A second correction finds no top bit.
afternoon-small : (register_b : ℕ) (t : RtcTime) → t.hour < 128 → afternoon register_b t ≡ t
unfolding afternoon
afternoon-small b t lt =
    let top : bit_and t.hour 0x80 ≡ 0 = omega (arith, bit_and_top t.hour (omega arith)) in
    rw top (ground arith)

-- The two corrections of the hour come to one.
afternoon-twice :
    (register_b : ℕ) (pm : Bool) (t : RtcTime)
    → t.hour < 24
    → (pm ≡ true → bit_and register_b 0x02 ≡ 0)
    → afternoon register_b
        (afternoon register_b (record t { hour = t.hour + (if pm then 128 else 0) }))
      ≡ record t { hour = hour_decoded pm t.hour }
unfolding afternoon
afternoon-twice b true t lt mode =
    let late : bit_and (t.hour + 128) 0x80 ≡ 128 =
      omega (arith, bit_and_top (t.hour + 128) (omega arith)) in
    let low : bit_and (t.hour + 128) 0x7F ≡ t.hour = omega (arith, bit_and_mask 7 (t.hour + 128)) in
    let once : afternoon b (record t { hour = t.hour + 128 })
        ≡ record t { hour = (t.hour + 12) % 24 } =
      rw (mode refl) (rw late (rw low refl)) in
    ap (afternoon b) once ∙ afternoon-small b (record t { hour = (t.hour + 12) % 24 }) (omega arith)
afternoon-twice b false t lt mode =
    rw (add-zero t.hour)
      (ap (afternoon b) (afternoon-small b t (omega arith)) ∙ afternoon-small b t (omega arith))

-- The registers of a clock, decoded and corrected, are the time that the clock shows.
pub decoded-told :
    (r : ℕ → ℕ) (binary pm : Bool) (t : RtcTime)
    → Shows r binary pm t
    → afternoon (r 0x0B) (afternoon (r 0x0B) (decoded (r 0x0B) (registers r)))
      ≡ record t { hour = hour_decoded pm t.hour }
decoded-told r binary pm t s =
    rw (decoded-Shows r binary pm t s) (afternoon-twice (r 0x0B) pm t s.hour.1 s.hour_mode)
