-- ===== src/Workers/Reconciliation/Payload.antt =====
-- The request that an operation carries, and what the job takes from outside.
use billing_core.Shared.{ℕ, Bool, List, [], Option, none, some, if◌then◌else◌}
use billing_core.Shared.Int.{ℤ}
use billing_core.Shared.Texts.{Text, lit, text_eq, is_truthy}
use billing_core.Shared.Json.{Json, null, str, obj, Fields, end, field}
use billing_core.Shared.Actions.{
  Error, key_error, type_error, value_error, not_found, Result, ok, err, Action, raise, attempt,
}
use billing_core.Domain.Enums.{GatewayProvider, SubscriptionType}
use billing_core.Domain.Calendar.{Datetime}
use billing_core.UseCases.Cancellation.{RemoteStatus}
use billing_core.UseCases.Creation.{PaymentInfo}
use billing_core.Workers.Deliveries.{DeliveryEnv}

-- `CreateCheckoutGatewayResponse`
pub record RemoteCheckoutInfo : Type 0 where
  pub checkout_id : Text
  pub checkout_url : Text
  pub status : Text
  pub external_reference : Option Text

-- The time, three calls of a gateway, and the readings of an identifier, of a datetime and of an
-- amount.
pub record OperationEnv : Type 0 where
  pub clock : ℕ → Datetime
  pub delivery : DeliveryEnv
  pub verify_status : GatewayProvider → Option Text → Result RemoteStatus
  pub get_subscription_payment : GatewayProvider → Option Text → Result (List PaymentInfo)
  pub get_checkout : GatewayProvider → Text → Result RemoteCheckoutInfo
  pub parse_uuid : Text → Result ℕ
  pub fromisoformat : Text → Result Datetime
  pub decimal_of : Json → Result ℤ

-- The value of a field.
unfoldable pub find_field : Text → Fields → Option Json
find_field key end = none
find_field key (field k v rest) =
    let others = find_field key rest in if text_eq key k then some v else others

-- `payload.get(key)`
unfoldable pub get_item : Text → Json → Result (Option Json)
get_item key (obj fields) = ok (find_field key fields)
get_item key _ = err (type_error "get")

-- `payload[key]`
unfoldable pub item : Text → Json → Result Json
item key (obj fields) = elim (find_field key fields) [ none ↦ err key_error | some v ↦ ok v ]
item key _ = err (type_error "item")

-- A value where the code goes on with a text, and one where it may be `None`.
unfoldable pub text_value : Json → Result Text
text_value (str s) = ok s
text_value _ = err (type_error "str")

unfoldable pub optional_text : Option Json → Result (Option Text)
optional_text none = ok none
optional_text (some null) = ok none
optional_text (some (str s)) = ok (some s)
optional_text (some _) = err (type_error "str")

abbrev pub and_then : {A B : Type 0} → Result A → (A → Result B) → Result B
and_then (ok a) f = f a
and_then (err e) f = err e

unfoldable pub text_item : Text → Json → Result Text
text_item key payload = and_then (item key payload) text_value

unfoldable pub get_text : Text → Json → Result (Option Text)
get_text key payload = and_then (get_item key payload) optional_text

-- `payload.get("description", "")`
unfoldable pub description_of : Json → Result (Option Text)
description_of payload =
    and_then (get_item (lit "description") payload)
      λ o. elim o [ none ↦ ok (some []) | some v ↦ optional_text (some v) ]

-- `SubscriptionType(value)`
unfoldable pub subscription_type_of : Text → Result SubscriptionType
subscription_type_of s =
    if text_eq s (lit "MONTHLY")
    then ok SubscriptionType.monthly
    else if text_eq s (lit "SEMIANNUALLY")
    then ok SubscriptionType.semiannual
    else if text_eq s (lit "YEARLY")
    then ok SubscriptionType.yearly
    else err (value_error "SubscriptionType")

module _ (env : OperationEnv) where
  -- `datetime.fromisoformat(payload[key]) if payload.get(key) else None`
  unfoldable pub datetime_of : Text → Json → Result (Option Datetime)
  datetime_of key payload = and_then (get_text key payload) λ o.
      if is_truthy o
      then elim o [
        | none ↦ ok none
        | some s ↦ elim (env.fromisoformat s) [ err e ↦ err e | ok t ↦ ok (some t) ]
      ]
      else ok none

abbrev pub is_not_found : Error → Bool
is_not_found (not_found _) = Bool.true
is_not_found _ = Bool.false

-- `try: m; except NotFoundError: h`
unfoldable pub unless_found : {S A : Type 0} → Action S A → Action S A → Action S A
unless_found m h = attempt m λ e. if is_not_found e then h else raise e
