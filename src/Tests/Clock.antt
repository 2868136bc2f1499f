-- ===== src/Tests/Clock.antt =====
-- kernel/rtc.c at concrete times.
use tor_os.Prelude.{◌-◌, ◌*◌, ◌≡◌, refl, some, arith}
use tor_os.Rtc.{Datetime, seconds_to_dt, year_loop, month_loop, is_leap, days_in_month}
use tor_os.Rtc.Calendar.{IsDate, dt_seconds, seconds_to_dt_lem}

-- A second before the first of March of 2024, a leap year.
leap_day :
    seconds_to_dt (60 * 86400 - 1)
    ≡ some (record { year = 2024; month = 2; day = 29; hour = 23; minute = 59; second = 59 })
unfolding seconds_to_dt year_loop month_loop is_leap days_in_month
leap_day = refl

seconds_to_dt_lem_example :
    (d : Datetime) × (seconds_to_dt 5_000_000 ≡ some d) × IsDate d × (dt_seconds d ≡ 5_000_000)
seconds_to_dt_lem_example = seconds_to_dt_lem 5_000_000 (omega arith)
