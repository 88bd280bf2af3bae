-- ===== src/Domain/Subscription/Renewal.antt =====
-- What a payment does to a subscription.
use billing_core.Shared.{inl, inr, ◌+◌, ◌≤◌, ◌<◌, ◌≡◌, ◌≢◌, some, arith, Bool-cases}
use billing_core.Shared.Actions.{ok}
use billing_core.Domain.Enums.{SubscriptionStatus}
use billing_core.Domain.Calendar.{
  Datetime, IsValid, instant, is_earlier, latest, add_billing_period, max_year,
}
use billing_core.Domain.Calendar.Periods.{
  LeadsTo, add_billing_period-LeadsTo, add_billing_period-later, add_billing_period-defined,
}
use billing_core.Domain.Subscription.{Subscription, mark_as_paid}

latest-IsValid : (a b : Datetime) → IsValid a → IsValid b → IsValid (latest a b)
unfolding latest
latest-IsValid a b v w = elim (Bool-cases (is_earlier a b)) [ inl e ↦ rw e w | inr e ↦ rw e v ]

latest-upper :
    (a b : Datetime) → (instant a ≤ instant (latest a b)) × (instant b ≤ instant (latest a b))
unfolding latest is_earlier
latest-upper a b = ground arith

-- The subscription after a payment of a date: active, paid on that date, and with an end that is
-- one period after the later of the date and the old end. Nothing else changes.
pub record IsRenewed (s : Subscription) (date : Datetime) (t : Subscription) : Type 0 where
  pub expiry : LeadsTo (latest date s.expires_at) s.subscription_type t.expires_at
  pub after_end : instant s.expires_at + 86_400_000_000 ≤ instant t.expires_at
  pub after_payment : instant date + 86_400_000_000 ≤ instant t.expires_at
  pub rest : t ≡ record s {
    last_paid_date = some date;
    expires_at = t.expires_at;
    status = SubscriptionStatus.active;
  }

renewed_by :
    (s : Subscription) (date : Datetime) {t : Subscription}
    → mark_as_paid (some date) s ≡ (ok tt, t)
    → (add_billing_period (latest date s.expires_at) s.subscription_type ≡ ok t.expires_at)
      × (t ≡ record s {
        last_paid_date = some date;
        expires_at = t.expires_at;
        status = SubscriptionStatus.active;
      })
unfolding mark_as_paid
renewed_by s date e = ground arith

-- An accepted payment of a date makes the subscription active and paid on that date, moves its
-- end one billing period past the later of the date and the old end, which is at least a day
-- later than both, and changes nothing else.
pub mark_as_paid-IsRenewed :
    (s : Subscription) (date : Datetime) {t : Subscription}
    → IsValid date
    → IsValid s.expires_at
    → mark_as_paid (some date) s ≡ (ok tt, t)
    → IsRenewed s date t
mark_as_paid-IsRenewed s date {t} v w e =
    let (q, r) = renewed_by s date e in
    let base : IsValid (latest date s.expires_at) = latest-IsValid date s.expires_at v w in
    let (a, b) = latest-upper date s.expires_at in
    let l = add_billing_period-later (latest date s.expires_at) s.subscription_type base q in
    record {
      expiry = add_billing_period-LeadsTo (latest date s.expires_at) s.subscription_type base q;
      after_end = omega (arith, b, l);
      after_payment = omega (arith, a, l);
      rest = r;
    }

latest-year :
    (a b : Datetime)
    → a.year < max_year
    → b.year < max_year
    → a.month ≤ 12
    → b.month ≤ 12
    → ((latest a b).year < max_year) × ((latest a b).month ≤ 12)
unfolding latest
latest-year a b h k m n = elim (Bool-cases (is_earlier a b)) [
  | inl e ↦ rw e (k, n)
  | inr e ↦ rw e (h, m)
]

-- A payment of a valid date is accepted by a subscription that is not canceled, if the date and
-- the end lie before the last year that a date can have.
pub mark_as_paid-accepted :
    (s : Subscription) (date : Datetime)
    → IsValid date
    → IsValid s.expires_at
    → s.status ≢ SubscriptionStatus.canceled
    → date.year < max_year
    → s.expires_at.year < max_year
    → (mark_as_paid (some date) s).0 ≡ ok tt
unfolding mark_as_paid
mark_as_paid-accepted s date v w c y z =
    let (l, m) = latest-year date s.expires_at y z v.month_to w.month_to in
    let (next, e) = add_billing_period-defined (latest date s.expires_at) s.subscription_type l m in
    ground (arith, e)
