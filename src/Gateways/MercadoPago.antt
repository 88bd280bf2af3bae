-- ===== src/Gateways/MercadoPago.antt =====
-- app/infra/interfaces/mercadopago_mappers.py, and the methods of
-- app/infra/interfaces/mercadopago_provider.py that only read: what MercadoPago answers, in the
-- words that the use cases compare with. Here: its resources and their statuses.
pub mod Checkouts
pub mod Notifications
mod Examples
use billing_core.Shared.{Bool, List, [], ◌∷◌, ◌++◌, Option, none, some, ◌==◌, if◌then◌else◌}
use billing_core.Shared.Int.{ℤ}
use billing_core.Shared.Texts.{Text, lit, text_eq, upper, lower, is_truthy, or_empty}
use billing_core.Shared.Actions.{key_error, Result, ok, err}
use billing_core.Domain.Calendar.{Datetime}
use billing_core.Workers.Reconciliation.Payload.{and_then}

-- What is read of the resources of the API. An identifier is the text that `str` makes of it where
-- it is read by its key, which is "None" for null; a field that is missing, or is null where it is
-- read by `get`, is `none`.
pub record RemotePayment : Type 0 where
  pub id : Option Text
  pub status : Option Text
  pub transaction_amount : Option ℤ
  pub net_received_amount : Option ℤ
  pub date_approved : Option Text
  pub external_reference : Option Text
  pub payment_type_id : Option Text
  pub subscription_id : Option Text

pub record Invoice : Type 0 where
  pub id : Option Text
  pub preapproval_id : Option Text
  pub payment_id : Option Text

pub record Preapproval : Type 0 where
  pub id : Option Text
  pub status : Option Text

pub record Preference : Type 0 where
  pub id : Option Text
  pub init_point : Option Text
  pub external_reference : Option Text
  pub expires : Bool
  pub expiration_date_to : Option Text

-- A notification, with its `type`, its `topic` and `data.id`.
pub record Notification : Type 0 where
  pub type_name : Option Text
  pub topic : Option Text
  pub data_id : Option Text

-- What `datetime.fromisoformat` reads: a moment, taken in UTC where it has no offset.
pub record Moment : Type 0 where
  pub at : Datetime
  pub has_offset : Bool

-- The API, and two readings of the standard library: of a datetime, and of a date, as its midnight
-- in UTC.
pub record Api : Type 0 where
  pub get_payment : Text → Result RemotePayment
  pub get_invoice : Text → Result Invoice
  pub get_preapproval : Text → Result Preapproval
  pub get_preference : Text → Result Preference
  pub search_payments : Text → Result (List RemotePayment)
  pub datetime_of : Text → Result Moment
  pub date_of : Text → Result Datetime

-- `(status or "").lower()`
abbrev pub normalized : Option Text → Text
normalized status = lower (or_empty status)

-- `_PAYMENT_STATUS_TO_GATEWAY` and the status itself, in capitals
unfoldable pub payment_status_to_gateway : Option Text → Text
payment_status_to_gateway status =
    let s = normalized status in
    if text_eq s (lit "approved")
    then lit "RECEIVED"
    else if text_eq s (lit "authorized")
    then lit "CONFIRMED"
    else if text_eq s (lit "refunded")
    then lit "REFUNDED"
    else if text_eq s (lit "charged_back")
    then lit "CHARGEBACK_REQUESTED"
    else upper s

-- `_PREAPPROVAL_STATUS_TO_GATEWAY`
unfoldable pub preapproval_status_to_gateway : Option Text → Text
preapproval_status_to_gateway status =
    let s = normalized status in
    if text_eq s (lit "authorized")
    then lit "ACTIVE"
    else if text_eq s (lit "pending")
    then lit "PENDING"
    else if text_eq s (lit "paused")
    then lit "PAUSED"
    else if text_eq s (lit "cancelled")
    then lit "CANCELED"
    else upper s

unfoldable pub billing_type_from_payment : RemotePayment → Text
billing_type_from_payment payment =
    let t = or_empty payment.payment_type_id in
    if text_eq t (lit "credit_card")
    then lit "CREDIT_CARD"
    else if text_eq t (lit "debit_card")
    then lit "DEBIT_CARD"
    else if text_eq t (lit "bank_transfer")
    then lit "PIX"
    else if text_eq t (lit "ticket")
    then lit "BOLETO"
    else lit "UNDEFINED"

-- `value.replace("Z", "+00:00")`
unfoldable pub with_offset : Text → Text
with_offset [] = []
with_offset (c ∷ s) =
    let rest = with_offset s in if c == b'Z' then lit "+00:00" ++ rest else c ∷ rest

-- `payment["id"]`
abbrev pub required : Option Text → Result Text
required none = err key_error
required (some t) = ok t

module _ (api : Api) where
  unfoldable pub parse_datetime : Option Text → Result (Option Moment)
  parse_datetime value =
      if is_truthy value
      then and_then (api.datetime_of (with_offset (or_empty value))) (λ t. ok (some t))
      else ok none
