-- ===== src/UseCases/Checkout/Marker.antt =====
-- The mark of a renewal in app/application/use_cases/create_checkout.py:
-- `updated_at.astimezone(timezone.utc).strftime("%Y%m%d%H%M%S%f")`, for the years 1000 to 9999.
use billing_core.Shared.{
  ℕ, zero, suc, ◌+◌, ◌-◌, ◌*◌, ◌/◌, ◌%◌, [], ◌∷◌, ◌++◌, ltb, ◌==◌, if◌then◌else◌,
}
use billing_core.Shared.Texts.{Text}
use billing_core.Domain.Calendar.{Datetime, days_in_month}

-- The last `w` digits of a number.
unfoldable pub digits : ℕ → ℕ → Text
digits zero n = []
digits (suc w) n = digits w (n / 10) ++ ((b'0' + n % 10) ∷ [])

abbrev next_day : Datetime → Datetime
next_day t =
    if ltb t.day (days_in_month t.year t.month)
    then record t { day = t.day + 1 }
    else if ltb t.month 12
    then record t { month = t.month + 1; day = 1 }
    else record t { year = t.year + 1; month = 1; day = 1 }

abbrev previous_day : Datetime → Datetime
previous_day t =
    if ltb 1 t.day
    then record t { day = t.day - 1 }
    else if ltb 1 t.month
    then record t { month = t.month - 1; day = days_in_month t.year (t.month - 1) }
    else record t { year = t.year - 1; month = 12; day = 31 }

-- `astimezone(timezone.utc)`
unfoldable pub to_utc : Datetime → Datetime
unfolding days_in_month
to_utc t =
    let total = t.micros + t.west * 60_000_000 in
    let shift = total / 86_400_000_000 in
    let moved = if shift == 0 then previous_day t else if shift == 1 then t else next_day t in
    record moved { micros = total % 86_400_000_000; west = 1440 }

unfoldable pub renewal_marker : Datetime → Text
unfolding to_utc digits
renewal_marker updated_at =
    let t = to_utc updated_at in
    let seconds = t.micros / 1_000_000 in
    digits 4 t.year
    ++ digits 2 t.month
    ++ digits 2 t.day
    ++ digits 2 (seconds / 3600)
    ++ digits 2 (seconds / 60 % 60)
    ++ digits 2 (seconds % 60)
    ++ digits 6 (t.micros % 1_000_000)
