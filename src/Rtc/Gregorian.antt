-- ===== src/Rtc/Gregorian.antt =====
-- The Gregorian calendar, by which the dates of kernel/rtc.c are judged: years counted from the
-- number of leap years before them, and months by a rule.
use tor_os.Prelude.{
  ℕ, zero, suc, ◌+◌, ◌-◌, ◌*◌, ◌/◌, ◌%◌, ◌≤◌, ◌≡◌, refl, ap, ◌∙◌, Bool, true, ◌||◌, ◌==◌,
  if◌then◌else◌, arith, get_or, Bool-cases, inl, inr,
}
use tor_os.Bitmap.{all_below, all_below_at}
use tor_os.Rtc.{month_days, is_leap, days_in_month}

-- The days of the years below `y`: a day more for each multiple of 4, but not for those of 100 that
-- are none of 400.
abbrev pub days_before : ℕ → ℕ
days_before y = 365 * y + (y + 3) / 4 + (y + 399) / 400 - (y + 99) / 100

-- February has what the other months leave of the year.
abbrev pub month_length : ℕ → ℕ → ℕ
month_length y m =
    if m == 2 then days_before (y + 1) - days_before y - 337 else 30 + (m + m / 8) % 2

-- The days of the first `n` months of a year.
abbrev pub months_before : ℕ → ℕ → ℕ
months_before y zero = 0
months_before y (suc n) = months_before y n + month_length y (n + 1)

pub days_before-next :
    (y : ℕ) → days_before (y + 1) ≡ days_before y + (if is_leap y then 366 else 365)
unfolding is_leap
days_before-next y = ground arith

abbrev agrees : ℕ → Bool
agrees m = m == 0 || (m == 2 || get_or month_days (m - 1) 0 == 30 + (m + m / 8) % 2)

agree_all : all_below 13 agrees ≡ true
unfolding all_below
agree_all = refl

-- The code's months are those of the calendar.
pub days_in_month-month_length : (y m : ℕ) → 1 ≤ m → m ≤ 12 → days_in_month y m ≡ month_length y m
unfolding days_in_month
days_in_month-month_length y m h k = elim (Bool-cases (m == 2)) [
  | inl february ↦
      let same : m ≡ 2 = ground arith in
      ap (λ x. days_in_month y x) same ∙ ground (arith, days_before-next y, february)
  | inr other ↦
      let table = all_below_at 13 agrees m agree_all (omega arith) in
      let entry : get_or month_days (m - 1) 0 ≡ 30 + (m + m / 8) % 2 = ground arith in
      rw (other, days_in_month) entry
]
