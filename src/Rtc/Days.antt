-- ===== src/Rtc/Days.antt =====
-- The seconds that the loops of `seconds_to_dt` take off, as days of the calendar.
use tor_os.Prelude.{ℕ, zero, suc, ◌+◌, ◌-◌, ◌*◌, ◌≤◌, ◌<◌, ◌≡◌, ◌∙◌, refl, ap, arith}
use tor_os.Rtc.{year_secs, month_secs, secs_per_day, epoch_year}
use tor_os.Rtc.Gregorian.{
  days_before, month_length, months_before, days_before-next, days_in_month-month_length,
}

-- The seconds of `n` years from `y` on, and of `n` months of year `y` from `m` on.
abbrev pub years_secs : ℕ → ℕ → ℕ
years_secs y zero = 0
years_secs y (suc n) = year_secs y + years_secs (y + 1) n

abbrev pub months_secs : ℕ → ℕ → ℕ → ℕ
months_secs y m zero = 0
months_secs y m (suc n) = month_secs y m + months_secs y (m + 1) n

years_secs_lem :
    (n y : ℕ) → years_secs y n + days_before y * secs_per_day ≡ days_before (y + n) * secs_per_day
years_secs_lem zero y = omega arith
years_secs_lem (suc n) y =
    let year : year_secs y + days_before y * secs_per_day ≡ days_before (y + 1) * secs_per_day =
      omega (arith, days_before-next y) in
    let next : days_before (y + 1 + n) ≡ days_before (y + suc n) = ap days_before (omega arith) in
    omega (arith, years_secs_lem n (y + 1), year, next)

months_secs-next : (n y m : ℕ) → months_secs y m (suc n) ≡ months_secs y m n + month_secs y (m + n)
months_secs-next zero y m =
    let same : month_secs y (m + 0) ≡ month_secs y m = ap (month_secs y) (omega arith) in
    omega (arith, same)
months_secs-next (suc n) y m =
    let same : month_secs y (m + 1 + n) ≡ month_secs y (m + suc n) =
      ap (month_secs y) (omega arith) in
    omega (arith, same, months_secs-next n y (m + 1))

months_secs_lem : (n y : ℕ) → n ≤ 12 → months_secs y 1 n ≡ months_before y n * secs_per_day
months_secs_lem zero y h = refl
months_secs_lem (suc n) y h =
    let same : month_secs y (1 + n) ≡ month_length y (n + 1) * secs_per_day =
      ap (month_secs y) (omega arith)
      ∙ ap (λ x. x * secs_per_day)
          (days_in_month-month_length y (n + 1) (omega arith) (omega arith)) in
    omega (arith, months_secs-next n y 1, months_secs_lem n y (omega arith), same)

-- The seconds that the loops take off, as whole days.
pub days_lem :
    (n k year month rest : ℕ)
    → year ≡ epoch_year + n
    → month ≡ 1 + k
    → k < 12
    → (days_before year - days_before epoch_year + months_before year (month - 1)) * secs_per_day
        + rest
      ≡ years_secs epoch_year n + months_secs year 1 k + rest
days_lem n k year month rest e f h =
    let years : years_secs epoch_year n + days_before epoch_year * secs_per_day
        ≡ days_before year * secs_per_day =
      years_secs_lem n epoch_year ∙ ap (λ y. days_before y * secs_per_day) (omega arith) in
    let months : months_before year (month - 1) ≡ months_before year k =
      ap (months_before year) (omega arith) in
    omega (arith, years, months, months_secs_lem k year (omega arith))
