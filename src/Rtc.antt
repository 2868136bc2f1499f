-- ===== src/Rtc.antt =====
-- kernel/rtc.c: seconds since the start of 2024 as a date and a time. The clock's ticks are
-- parameters; the loops run on fuel, and `none` is a loop that ran out of it.
pub mod Gregorian
pub mod Days
pub mod Calendar
use tor_os.Prelude.{
  ℕ, zero, suc, ◌+◌, ◌-◌, ◌*◌, ◌/◌, ◌%◌, ◌^◌, Bool, true, false, not, ◌&&◌, ◌||◌, List, [], ◌∷◌,
  Option, none, some, ◌==◌, ltb, if◌then◌else◌, get_or,
}
use tor_os.Mm.{u64, sub64}

abbrev pub epoch_year : ℕ
epoch_year = 2024

abbrev pub secs_per_day : ℕ
secs_per_day = 86400

abbrev pub month_days : List ℕ
month_days = 31 ∷ 28 ∷ 31 ∷ 30 ∷ 31 ∷ 30 ∷ 31 ∷ 31 ∷ 30 ∷ 31 ∷ 30 ∷ 31 ∷ []

unfoldable pub is_leap : ℕ → Bool
is_leap y = (y % 4 == 0 && not (y % 100 == 0)) || y % 400 == 0

-- Out of range `month_days` is read as 0; `seconds_to_dt` only asks for months 1 to 12.
unfoldable pub days_in_month : ℕ → ℕ → ℕ
days_in_month y m = if m == 2 && is_leap y then 29 else get_or month_days (m - 1) 0

unfoldable pub rtc_get_time : ℕ → ℕ → ℕ
rtc_get_time jiffies boot_jiffies = u64 (sub64 jiffies boot_jiffies * 10) / 1000

-- `datetime_t`
pub record Datetime : Type 0 where
  pub year : ℕ
  pub month : ℕ
  pub day : ℕ
  pub hour : ℕ
  pub minute : ℕ
  pub second : ℕ

abbrev pub year_secs : ℕ → ℕ
year_secs y = (if is_leap y then 366 else 365) * secs_per_day

abbrev pub month_secs : ℕ → ℕ → ℕ
month_secs y m = days_in_month y m * secs_per_day

-- The first loop: the year and the seconds left.
unfoldable pub year_loop : ℕ → ℕ → ℕ → Option (ℕ × ℕ)
year_loop zero rem year = none
year_loop (suc fuel) rem year =
    let rest = year_loop fuel (rem - year_secs year) ((year + 1) % 2 ^ 16) in
    if ltb rem (year_secs year) then some (year, rem) else rest

-- The second loop: the month and the seconds left.
unfoldable pub month_loop : ℕ → ℕ → ℕ → ℕ → Option (ℕ × ℕ)
month_loop zero year rem month = none
month_loop (suc fuel) year rem month =
    let rest = month_loop fuel year (rem - month_secs year month) ((month + 1) % 2 ^ 8) in
    if ltb rem (month_secs year month) then some (month, rem) else rest

abbrev pub time_of : ℕ → ℕ → ℕ → Datetime
time_of year month rem =
    let time : ℕ = rem % secs_per_day in
    record {
      year = year;
      month = month;
      day = (1 + rem / secs_per_day) % 2 ^ 8;
      hour = time / 3600 % 2 ^ 8;
      minute = time % 3600 / 60 % 2 ^ 8;
      second = time % 3600 % 60 % 2 ^ 8;
    }

abbrev pub in_month : ℕ → Option (ℕ × ℕ) → Option Datetime
in_month year none = none
in_month year (some (month, rem)) = some (time_of year month rem)

abbrev pub in_year : Option (ℕ × ℕ) → Option Datetime
in_year none = none
in_year (some (year, rem)) = in_month year (month_loop 12 year rem 1)

-- A round of the first loop takes 365 days at least, and there are twelve months.
unfoldable pub seconds_to_dt : ℕ → Option Datetime
unfolding year_loop month_loop
seconds_to_dt seconds = in_year (year_loop (seconds / (365 * secs_per_day) + 1) seconds epoch_year)
