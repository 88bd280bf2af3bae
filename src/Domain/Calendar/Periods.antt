-- ===== src/Domain/Calendar/Periods.antt =====
-- Where a billing period leads: `_add_billing_period` of app/domain/entities/subscription.py.
use Prim.Native.Nat.add
use native.Mathlib.Nat.{add-zero, zero-add}
use billing_core.Shared.{
  ℕ, zero, suc, ◌+◌, ◌-◌, ◌*◌, ◌/◌, ◌%◌, ◌≤◌, ◌<◌, min, ◌≡◌, refl, inl, inr, arith, ltb,
  if◌then◌else◌, Bool-cases,
}
use billing_core.Shared.Actions.{ok}
use billing_core.Domain.Enums.{SubscriptionType}
use billing_core.Domain.Calendar.{
  Datetime, max_year, is_leap, days_in_month, days_before_month, days_before_year, ordinal, instant,
  period_months, replace_date, add_billing_period, IsValid,
}

days_in_month_range : (y m : ℕ) → (28 ≤ days_in_month y m) × (days_in_month y m ≤ 31)
unfolding days_in_month
days_in_month_range y m = ground arith

days_before_month-step :
    (y m : ℕ) → 1 ≤ m → days_before_month y (suc m) ≡ days_before_month y m + days_in_month y m
unfolding days_before_month
days_before_month-step y zero h = absurd (omega arith)
days_before_month-step y (suc m) h = refl

-- Months further on begin after the month's last day.
days_before_month-add :
    (y m k : ℕ)
    → 1 ≤ m
    → days_before_month y m + days_in_month y m ≤ days_before_month y (suc (k + m))
days_before_month-add y m zero h = rw zero-add (omega (arith, days_before_month-step y m h))
days_before_month-add y m (suc k) h =
    rw (add.suc, days_before_month-step y (suc (k + m)) (omega arith))
      (omega (arith, days_before_month-add y m k h))

days_before_month-thirteen : (y : ℕ) → days_before_month y 13 ≡ (if is_leap y then 366 else 365)
unfolding days_before_month days_in_month
days_before_month-thirteen y = ground arith

days_before_year-step :
    (y : ℕ)
    → 1 ≤ y
    → days_before_year (y + 1) ≡ days_before_year y + (if is_leap y then 366 else 365)
unfolding days_before_year is_leap
days_before_year-step y h = ground arith

-- The first day of a month that lies in the same year, or in the next.
same_year :
    (y m m' : ℕ)
    → 1 ≤ m
    → m < m'
    → days_before_month y m + days_in_month y m ≤ days_before_month y m'
same_year y m m' h l =
    let e : m' ≡ suc (m' - m - 1 + m) = omega arith in
    rw e (days_before_month-add y m (m' - m - 1) h)

next_year :
    (y m m' : ℕ)
    → 1 ≤ y
    → 1 ≤ m
    → m ≤ 12
    → days_before_year y + days_before_month y m + days_in_month y m
      ≤ days_before_year (y + 1) + days_before_month (y + 1) m'
next_year y m m' hy h l = omega (
  arith,
  days_before_year-step y hy,
  days_before_month-thirteen y,
  same_year y m 13 h (omega arith),
)

period_months_range : (k : SubscriptionType) → (1 ≤ period_months k) × (period_months k ≤ 12)
unfolding period_months
period_months_range SubscriptionType.yearly = omega arith
period_months_range SubscriptionType.semiannual = omega arith
period_months_range SubscriptionType.monthly = omega arith

target_later :
    (y m n : ℕ)
    → 1 ≤ y
    → 1 ≤ m
    → m ≤ 12
    → 1 ≤ n
    → n ≤ 12
    → days_before_year y + days_before_month y m + days_in_month y m
      ≤ days_before_year (y + (m - 1 + n) / 12)
        + days_before_month (y + (m - 1 + n) / 12) ((m - 1 + n) % 12 + 1)
target_later y m n hy h l hn ln = elim (Bool-cases (ltb (m - 1 + n) 12)) [
  | inl e ↦
      let q : (m - 1 + n) / 12 ≡ 0 = ground arith in
      let r : (m - 1 + n) % 12 + 1 ≡ m + n = ground arith in
      rw (q, r, add-zero) (omega (arith, same_year y m (m + n) h (omega arith)))
  | inr e ↦
      let q : (m - 1 + n) / 12 ≡ 1 = ground arith in
      rw q (next_year y m ((m - 1 + n) % 12 + 1) hy h l)
]

-- The datetime of the target month, before the test of its year.
abbrev target : Datetime → ℕ → Datetime
target t n = record t {
  year = t.year + (t.month - 1 + n) / 12;
  month = (t.month - 1 + n) % 12 + 1;
  day = min t.day (days_in_month (t.year + (t.month - 1 + n) / 12) ((t.month - 1 + n) % 12 + 1));
}

add_billing_period-eq-ok :
    (base : Datetime) (kind : SubscriptionType) {next : Datetime}
    → add_billing_period base kind ≡ ok next
    → (next ≡ target base (period_months kind))
      × ((target base (period_months kind)).year ≤ max_year)
unfolding add_billing_period replace_date
add_billing_period-eq-ok base kind e =
    elim (Bool-cases (ltb max_year (target base (period_months kind)).year)) [
      | inl late ↦ ground arith
      | inr fits ↦ ground arith
    ]

-- The date that a period leads to: the month is the base's, moved on by the months of the period;
-- the day is the base's, or the month's last day if that is earlier; the time and the offset stay.
pub record LeadsTo (base : Datetime) (kind : SubscriptionType) (next : Datetime) : Type 0 where
  pub months : next.year * 12 + next.month ≡ base.year * 12 + base.month + period_months kind
  pub day : next.day ≡ min base.day (days_in_month next.year next.month)
  pub micros : next.micros ≡ base.micros
  pub west : next.west ≡ base.west
  pub valid : IsValid next

target-LeadsTo :
    (base : Datetime) (kind : SubscriptionType)
    → IsValid base
    → (target base (period_months kind)).year ≤ max_year
    → LeadsTo base kind (target base (period_months kind))
target-LeadsTo base kind v l = record {
  months = omega arith;
  day = refl;
  micros = refl;
  west = refl;
  valid = record {
    year_from = omega arith;
    year_to = l;
    month_from = omega arith;
    month_to = omega arith;
    day_from = omega (
      arith,
      days_in_month_range (target base (period_months kind)).year
          (target base (period_months kind)).month,
    );
    day_to = omega arith;
    micros_to = v.micros_to;
    west_to = v.west_to;
  };
}

-- A billing period leads to a valid date whose month is moved on by the months of the period,
-- whose day is the day of the base or the last of the month if that is earlier, at the same time
-- and offset.
pub add_billing_period-LeadsTo :
    (base : Datetime) (kind : SubscriptionType) {next : Datetime}
    → IsValid base
    → add_billing_period base kind ≡ ok next
    → LeadsTo base kind next
unfolding add_billing_period
add_billing_period-LeadsTo base kind {next} v e =
    let (q, l) = add_billing_period-eq-ok base kind e in rw q (target-LeadsTo base kind v l)

-- A billing period leads to a moment that is later than the base by a day at least.
pub add_billing_period-later :
    (base : Datetime) (kind : SubscriptionType) {next : Datetime}
    → IsValid base
    → add_billing_period base kind ≡ ok next
    → instant base + 86_400_000_000 ≤ instant next
unfolding add_billing_period instant ordinal
add_billing_period-later base kind {next} v e =
    let (q, l) = add_billing_period-eq-ok base kind e in
    let (n, n') = period_months_range kind in
    rw q (
      omega (
        arith,
        target_later base.year base.month (period_months kind) v.year_from v.month_from v.month_to n
            n',
        days_in_month_range (target base (period_months kind)).year
            (target base (period_months kind)).month,
      ))

-- A billing period is added without an error to a date before the year 9999.
pub add_billing_period-defined :
    (base : Datetime) (kind : SubscriptionType)
    → base.year < max_year
    → base.month ≤ 12
    → (next : Datetime) × (add_billing_period base kind ≡ ok next)
unfolding add_billing_period replace_date
add_billing_period-defined base kind h m =
    (target base (period_months kind), ground (arith, period_months_range kind))
