-- ===== src/Domain/Calendar.antt =====
-- Aware datetimes as the standard library has them, and `_add_billing_period` of
-- app/domain/entities/subscription.py. The proofs are in the modules below.
pub mod Periods
use billing_core.Shared.{
  ℕ, zero, suc, ◌+◌, ◌-◌, ◌*◌, ◌/◌, ◌%◌, ◌≤◌, ◌<◌, min, Bool, ◌&&◌, ◌||◌, not, ltb, ◌==◌,
  if◌then◌else◌,
}
use billing_core.Shared.Actions.{Result, ok, err, value_error}
use billing_core.Domain.Enums.{SubscriptionType}

-- A local date and time with its offset from UTC: `micros` counts the microseconds of the day, and
-- `west` is 1440 minus the offset in minutes, so that it is a number (the offset lies strictly
-- between -24 and 24 hours).
pub record Datetime : Type 0 where
  pub year : ℕ
  pub month : ℕ
  pub day : ℕ
  pub micros : ℕ
  pub west : ℕ

abbrev pub max_year : ℕ
max_year = 9999

-- `calendar.isleap`
unfoldable pub is_leap : ℕ → Bool
is_leap y = (y % 4 == 0) && (not (y % 100 == 0) || (y % 400 == 0))

-- `calendar.monthrange(y, m)[1]`
unfoldable pub days_in_month : ℕ → ℕ → ℕ
unfolding is_leap
days_in_month y m =
    if m == 2
    then (if is_leap y then 29 else 28)
    else if (m == 4) || (m == 6) || (m == 9) || (m == 11)
    then 30
    else 31

-- The days of the year `y` before its month `m`.
unfoldable pub days_before_month : ℕ → ℕ → ℕ
days_before_month y zero = 0
days_before_month y (suc zero) = 0
days_before_month y (suc (suc m)) = days_before_month y (suc m) + days_in_month y (suc m)

-- The days before the year `y`, counted from the first of January of the year 1.
unfoldable pub days_before_year : ℕ → ℕ
days_before_year y = (y - 1) * 365 + (y - 1) / 4 - (y - 1) / 100 + (y - 1) / 400

-- `date.toordinal`
unfoldable pub ordinal : Datetime → ℕ
ordinal t = days_before_year t.year + days_before_month t.year t.month + t.day

-- The moment in microseconds of UTC, counted from two days before the year 1: aware datetimes are
-- compared by it.
unfoldable pub instant : Datetime → ℕ
instant t = (ordinal t * 1440 + t.west) * 60_000_000 + t.micros

-- `a == b`, `a < b` and `max(a, b)` of aware datetimes
unfoldable pub same_instant : Datetime → Datetime → Bool
same_instant a b = instant a == instant b

unfoldable pub is_earlier : Datetime → Datetime → Bool
is_earlier a b = ltb (instant a) (instant b)

unfoldable pub latest : Datetime → Datetime → Datetime
unfolding is_earlier
latest a b = if is_earlier a b then b else a

-- The months of a billing period.
unfoldable pub period_months : SubscriptionType → ℕ
period_months SubscriptionType.yearly = 12
period_months SubscriptionType.semiannual = 6
period_months SubscriptionType.monthly = 1

-- `base.replace(year=…, month=…, day=…)`, which raises past the last year.
replace_date : Datetime → ℕ → ℕ → ℕ → Result Datetime
replace_date t y m d =
    if ltb max_year y
    then err (value_error "year must be in 1..9999")
    else ok (record t { year = y; month = m; day = d })

unfoldable pub add_billing_period : Datetime → SubscriptionType → Result Datetime
unfolding period_months replace_date
add_billing_period base kind =
    let total_months = base.month - 1 + period_months kind in
    let target_year = base.year + total_months / 12 in
    let target_month = total_months % 12 + 1 in
    let target_day = min base.day (days_in_month target_year target_month) in
    replace_date base target_year target_month target_day

-- What `datetime` guarantees of every value.
pub record IsValid (t : Datetime) : Type 0 where
  pub year_from : 1 ≤ t.year
  pub year_to : t.year ≤ max_year
  pub month_from : 1 ≤ t.month
  pub month_to : t.month ≤ 12
  pub day_from : 1 ≤ t.day
  pub day_to : t.day ≤ days_in_month t.year t.month
  pub micros_to : t.micros < 86_400_000_000
  pub west_to : t.west < 2880
