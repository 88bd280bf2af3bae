-- ===== src/Gateways/MercadoPago/Checkouts.antt =====
-- The status of a checkout: `resolve_checkout_status` of
-- app/infra/interfaces/mercadopago_mappers.py, and `get_checkout` of
-- app/infra/interfaces/mercadopago_provider.py.
pub mod Followed
use billing_core.Shared.{
  ℕ, ◌+◌, Bool, not, ◌||◌, List, [], ◌∷◌, Option, none, some, any, leb, if◌then◌else◌,
}
use billing_core.Shared.Texts.{Text, lit, text_eq, is_truthy, or_empty}
use billing_core.Shared.Actions.{domain, type_error, Result, ok, err}
use billing_core.Domain.Calendar.{Datetime, instant}
use billing_core.Workers.Reconciliation.Payload.{RemoteCheckoutInfo, and_then}
use billing_core.Gateways.MercadoPago.{
  RemotePayment, Preference, Moment, Api, normalized, parse_datetime,
}

-- A payment has one of the statuses.
unfoldable pub has_status : List Text → List RemotePayment → Bool
has_status statuses payments = any (λ p. any (text_eq (normalized p.status)) statuses) payments

-- The statuses of a payment that is under way, `_UNSETTLED_PAYMENT_STATUSES`.
abbrev pub unsettled : List Text
unsettled = lit "pending" ∷ lit "in_process" ∷ lit "authorized" ∷ lit "in_mediation" ∷ []

-- The preference does not expire, or its time and the grace, in microseconds, are not over. The
-- present has an offset, and a datetime without one is not compared with it.
unfoldable pub is_current : Preference → Option Moment → Datetime → ℕ → Result Bool
is_current preference none now grace = ok Bool.true
is_current preference (some expiration) now grace =
    if not preference.expires
    then ok Bool.true
    else if expiration.has_offset
    then ok (leb (instant now) (instant expiration.at + grace))
    else err (type_error "can't compare offset-naive and offset-aware datetimes")

-- `_checkout_response`
unfoldable pub checkout_response : Preference → Text → Result RemoteCheckoutInfo
checkout_response preference status =
    if not (is_truthy preference.id)
      || not (is_truthy preference.init_point)
      || not (is_truthy preference.external_reference)
    then err (domain "Resposta de checkout do Mercado Pago incompleta.")
    else ok (record {
      checkout_id = or_empty preference.id;
      checkout_url = or_empty preference.init_point;
      status = status;
      external_reference = preference.external_reference;
    })

-- `str(preference.get("id")) != checkout_id`
abbrev is_named : Option Text → Text → Bool
is_named none t = text_eq (lit "None") t
is_named (some s) t = text_eq s t

module _ (api : Api) where
  unfoldable pub resolve_checkout_status :
      Preference → List RemotePayment → Datetime → ℕ → Result Text
  resolve_checkout_status preference payments now grace =
      if has_status (lit "approved" ∷ []) payments
      then ok (lit "PAID")
      else and_then (parse_datetime api preference.expiration_date_to) λ expiration.
        and_then (is_current preference expiration now grace) λ current.
          ok (if current || has_status unsettled payments then lit "ACTIVE" else lit "EXPIRED")

  -- The payments that carry the reference of the preference.
  unfoldable pub payments_of_preference : Preference → Result (List RemotePayment)
  payments_of_preference preference =
      if is_truthy preference.external_reference
      then api.search_payments (or_empty preference.external_reference)
      else ok []

  unfoldable pub get_checkout : Datetime → ℕ → Text → Result RemoteCheckoutInfo
  get_checkout now grace checkout_id = and_then (api.get_preference checkout_id) λ preference.
      if not (is_named preference.id checkout_id)
      then err (domain "Checkout do Mercado Pago retornou id divergente.")
      else and_then (payments_of_preference preference) λ payments.
        and_then (resolve_checkout_status preference payments now grace)
          λ status. checkout_response preference status
