-- ===== src/Rtc/Calendar.antt =====
-- The date computed is the one that the calendar gives, and it always comes.
use tor_os.Prelude.{
  ℕ, zero, suc, ◌+◌, ◌-◌, ◌*◌, ◌/◌, ◌%◌, ◌^◌, ◌≤◌, ◌<◌, ◌≡◌, ◌∙◌, refl, ap, true, false, some, ltb,
  Bool-cases, inl, inr, arith, ltb→lt, leb, leb→le, get_or,
}
use tor_os.Bitmap.{all_below, all_below_at}
use tor_os.Rtc.Gregorian.{days_before, month_length, months_before, days_in_month-month_length}
use tor_os.Rtc.Days.{years_secs, months_secs, days_lem}
use tor_os.Rtc.{
  Datetime, month_days, is_leap, days_in_month, year_secs, month_secs, secs_per_day, epoch_year,
  year_loop, month_loop, seconds_to_dt, time_of, in_month, in_year,
}

-- A date of the Gregorian calendar, and a time of day.
pub record IsDate (d : Datetime) : Type 0 where
  pub year_from : 2024 ≤ d.year
  pub month_from : 1 ≤ d.month
  pub month_to : d.month ≤ 12
  pub day_from : 1 ≤ d.day
  pub day_to : d.day ≤ month_length d.year d.month
  pub hour_to : d.hour < 24
  pub minute_to : d.minute < 60
  pub second_to : d.second < 60

-- The seconds from the start of 2024 to a date.
abbrev pub dt_seconds : Datetime → ℕ
dt_seconds d =
    (days_before d.year - days_before 2024 + months_before d.year (d.month - 1) + (d.day - 1))
      * 86400
    + d.hour * 3600
    + d.minute * 60
    + d.second

year_secs_least : (y : ℕ) → 365 * secs_per_day ≤ year_secs y
year_secs_least y = ground arith

not_less : (a b : ℕ) → ltb a b ≡ false → b ≤ a
not_less a b h = ground arith

year_loop_next :
    (fuel rem y : ℕ)
    → ltb rem (year_secs y) ≡ false
    → y + 1 < 2 ^ 16
    → year_loop (suc fuel) rem y ≡ year_loop fuel (rem - year_secs y) (y + 1)
unfolding year_loop
year_loop_next fuel rem y e h =
    let next : (y + 1) % 2 ^ 16 ≡ y + 1 = omega arith in
    rw e (ap (year_loop fuel (rem - year_secs y)) next)

month_loop_next :
    (fuel year rem m : ℕ)
    → ltb rem (month_secs year m) ≡ false
    → m + 1 < 2 ^ 8
    → month_loop (suc fuel) year rem m ≡ month_loop fuel year (rem - month_secs year m) (m + 1)
unfolding month_loop
month_loop_next fuel year rem m e h =
    let next : (m + 1) % 2 ^ 8 ≡ m + 1 = omega arith in
    rw e (ap (month_loop fuel year (rem - month_secs year m)) next)

-- A unit of fuel for each 365 days is enough.
year_loop_lem :
    (fuel rem y : ℕ)
    → rem < fuel * (365 * secs_per_day)
    → y + fuel < 2 ^ 16
    → (n : ℕ) × (year : ℕ) × (r : ℕ) × (year_loop fuel rem y ≡ some (year, r))
      × (year ≡ y + n)
      × (r < year_secs year)
      × (years_secs y n + r ≡ rem)
unfolding year_loop
year_loop_lem zero rem y h k = absurd (omega arith)
year_loop_lem (suc fuel) rem y h k = elim (Bool-cases (ltb rem (year_secs y))) [
  | inl e ↦ (0, y, rem, rw e refl, omega arith, ltb→lt rem _ e, omega arith)
  | inr e ↦
      let least = year_secs_least y in
      let enough = not_less rem (year_secs y) e in
      let (n, year, r, i, same, lt, total) =
        year_loop_lem fuel (rem - year_secs y) (y + 1) (omega arith) (omega arith) in
      (
        suc n,
        year,
        r,
        year_loop_next fuel rem y e (omega arith) ∙ i,
        omega (arith, same),
        lt,
        omega (arith, total, enough),
      )
]

-- The months that are left of the year are enough.
month_loop_lem :
    (fuel year rem m : ℕ)
    → rem < months_secs year m fuel
    → m + fuel ≤ 13
    → (n : ℕ) × (month : ℕ) × (r : ℕ) × (month_loop fuel year rem m ≡ some (month, r))
      × (month ≡ m + n)
      × (n < fuel)
      × (r < month_secs year month)
      × (months_secs year m n + r ≡ rem)
unfolding month_loop
month_loop_lem zero year rem m h k = absurd (omega arith)
month_loop_lem (suc fuel) year rem m h k = elim (Bool-cases (ltb rem (month_secs year m))) [
  | inl e ↦ (0, m, rem, rw e refl, omega arith, omega arith, ltb→lt rem _ e, omega arith)
  | inr e ↦
      let enough = not_less rem (month_secs year m) e in
      let (n, month, r, i, same, few, lt, total) =
        month_loop_lem fuel year (rem - month_secs year m) (m + 1) (omega arith) (omega arith) in
      (
        suc n,
        month,
        r,
        month_loop_next fuel year rem m e (omega arith) ∙ i,
        omega (arith, same),
        omega (arith, few),
        lt,
        omega (arith, total, enough),
      )
]

months-year : (y : ℕ) → months_secs y 1 12 ≡ year_secs y
unfolding days_in_month
months-year y = elim (Bool-cases (is_leap y)) [ inl e ↦ rw e refl | inr e ↦ rw e refl ]

days_table : all_below 13 (λ m. leb (get_or month_days (m - 1) 0) 31) ≡ true
unfolding all_below
days_table = refl

days_in_month_most : (y m : ℕ) → 1 ≤ m → m ≤ 12 → days_in_month y m ≤ 31
unfolding days_in_month
days_in_month_most y m h k =
    let short : get_or month_days (m - 1) 0 ≤ 31 =
      leb→le _ _
        (all_below_at 13 (λ m. leb (get_or month_days (m - 1) 0) 31) m days_table (omega arith)) in
    ground (arith, short)

time_of_lem :
    (year month r n : ℕ)
    → epoch_year ≤ year
    → month ≡ 1 + n
    → n < 12
    → r < month_secs year month
    → IsDate (time_of year month r)
      × (((time_of year month r).day - 1) * secs_per_day
            + (time_of year month r).hour * 3600
            + (time_of year month r).minute * 60
            + (time_of year month r).second
          ≡ r)
time_of_lem year month r n from same few lt =
    let same_days = days_in_month-month_length year month (omega arith) (omega arith) in
    let most = days_in_month_most year month (omega arith) (omega arith) in
    (
      record {
        year_from = from;
        month_from = omega arith;
        month_to = omega arith;
        day_from = omega arith;
        day_to = omega (arith, same_days);
        hour_to = omega arith;
        minute_to = omega arith;
        second_to = omega arith;
      },
      omega arith,
    )

-- For less than 2 ^ 40 seconds both loops end; the result is a date of the Gregorian calendar, a
-- time of day, and the seconds from the start of 2024 to it are those given.
pub seconds_to_dt_lem :
    (seconds : ℕ)
    → seconds < 2 ^ 40
    → (d : Datetime) × (seconds_to_dt seconds ≡ some d) × IsDate d × (dt_seconds d ≡ seconds)
unfolding seconds_to_dt
seconds_to_dt_lem seconds h =
    let fuel : ℕ = seconds / (365 * secs_per_day) + 1 in
    let (n, year, r, i, same, lt, total) =
      year_loop_lem fuel seconds epoch_year (omega arith) (omega arith) in
    let (k, month, r', j, same', few, lt', total') =
      month_loop_lem 12 year r 1 (omega (arith, lt, months-year year)) (omega arith) in
    let (date, rest) = time_of_lem year month r' k (omega (arith, same)) same' few lt' in
    (
      time_of year month r',
      ap in_year i ∙ ap (in_month year) j,
      date,
      omega (arith, rest, total', total, days_lem n k year month r' same same' few),
    )
