-- ===== src/UseCases/Checkout.antt =====
-- `CreateCheckout` of app/application/use_cases/create_checkout.py: a checkout of a gateway for a
-- payment of a system, under an operation that keeps account of what was asked of the gateway.
pub mod Marker
pub mod Execute
pub mod Orderly
pub mod Log
pub mod Outcome
pub mod Answers
pub mod Repeat
pub mod Examples
mod Runs
use billing_core.Shared.{
  ℕ, Bool, true, false, not, ◌&&◌, List, [], ◌∷◌, ◌++◌, Option, none, some, if◌then◌else◌, leb,
}
use billing_core.Shared.Int.{ℤ}
use billing_core.Shared.Texts.{Text, lit, is_truthy}
use billing_core.Shared.Json.{Json}
use billing_core.Shared.Actions.{
  Error, domain, value_error, gateway_api, request_failed, request_unsent, Result, ok, err,
}
use billing_core.Domain.Enums.{
  System, system_value, GatewayProvider, PaymentStatus, one_of, GatewayOperationStatus,
  operation_status_eq,
}
use billing_core.Domain.Calendar.{Datetime}
use billing_core.Domain.Payment.{Payment}
use billing_core.Domain.Operation.{GatewayOperation}
use Marker.{renewal_marker}

pub record CheckoutItem : Type 0 where
  pub external_reference : Text
  pub name : Text
  pub description : Text
  pub quantity : ℕ
  pub value : ℤ

-- `CreateCheckoutDTO`
pub record CheckoutRequest : Type 0 where
  pub system : System
  pub system_payment_id : Text
  pub description : Text
  pub value : ℤ
  pub minutes_to_expire : ℕ
  pub items : List CheckoutItem
  pub success_url : Text
  pub cancel_url : Text
  pub expired_url : Text
  pub webhook_link : Text

pub record CheckoutResponse : Type 0 where
  pub payment_id : ℕ
  pub checkout_url : Text
  pub payment_status : PaymentStatus

-- What `create_checkout` of a gateway takes. The value of an item goes as a float.
pub record CheckoutCall : Type 0 where
  pub billing_types : List Text
  pub charge_types : List Text
  pub minutes_to_expire : ℕ
  pub external_reference : Text
  pub success_url : Text
  pub cancel_url : Text
  pub expired_url : Text
  pub items : List CheckoutItem

pub record CheckoutInfo : Type 0 where
  pub checkout_id : Text
  pub checkout_url : Text

-- What the use case takes from outside: the time, the request as JSON with the reference, and the
-- text of an exception; and the gateways, by their `create_checkout`.
pub record CheckoutEnv : Type 0 where
  pub clock : ℕ → Datetime
  pub dump : CheckoutRequest → Text → Json
  pub message : Error → Text

abbrev pub Gateway : Type 0
Gateway = GatewayProvider → CheckoutCall → Result CheckoutInfo

-- `_has_uncertain_gateway_outcome`
unfoldable pub has_uncertain_gateway_outcome : Error → Bool
has_uncertain_gateway_outcome request_unsent = false
has_uncertain_gateway_outcome request_failed = true
has_uncertain_gateway_outcome (gateway_api status body) = leb 500 status
has_uncertain_gateway_outcome _ = false

-- `CreateCheckoutResponse(…)`: the schema refuses a payment without an id or a link.
unfoldable pub response_of : Option ℕ → Option Text → PaymentStatus → Result CheckoutResponse
response_of (some n) (some url) status =
    ok (record { payment_id = n; checkout_url = url; payment_status = status })
response_of _ _ status = err (value_error "CreateCheckoutResponse")

-- `is_checkout_renewal`
unfoldable pub is_renewal : Payment → Bool
is_renewal p = one_of p.payment_status (PaymentStatus.expired ∷ PaymentStatus.canceled ∷ [])

abbrev pub colon : Text → Text → Text
colon s t = s ++ (b':' ∷ t)

-- `f"{system}:{ref}"` and, for a renewal, `f":renewal:{marker}"` behind it.
abbrev subject : CheckoutRequest → Option Payment → Text
subject request none = colon (system_value request.system) request.system_payment_id
subject request (some p) =
    colon (system_value request.system)
      (colon request.system_payment_id (colon (lit "renewal") (renewal_marker p.updated_at)))

unfoldable pub external_reference : CheckoutRequest → Option Payment → Text
external_reference request renewed = colon (lit "checkout") (subject request renewed)

unfoldable pub operation_dedupe_key : CheckoutRequest → Option Payment → Text
operation_dedupe_key request renewed = colon (lit "create_checkout") (subject request renewed)

unfoldable pub call_of : CheckoutRequest → Option Payment → CheckoutCall
unfolding external_reference lit
call_of request renewed = record {
  billing_types = lit "PIX" ∷ lit "CREDIT_CARD" ∷ [];
  charge_types = lit "DETACHED" ∷ [];
  minutes_to_expire = request.minutes_to_expire;
  external_reference = external_reference request renewed;
  success_url = request.success_url;
  cancel_url = request.cancel_url;
  expired_url = request.expired_url;
  items = request.items;
}

-- The guards on an operation that is there.
unfoldable pub check_operation : Option GatewayOperation → Result (Unit {0})
check_operation none = ok tt
check_operation (some o) =
    if operation_status_eq o.status GatewayOperationStatus.completed
    then err (
        domain
          "Existe uma operacao concluida sem espelho local consistente. Requer reconciliacao antes de nova tentativa.")
    else if operation_status_eq o.status GatewayOperationStatus.requires_reconciliation
    then err (domain "Existe uma operacao pendente de reconciliacao para esse checkout.")
    else if operation_status_eq o.status GatewayOperationStatus.failed
        && is_truthy o.gateway_reference
    then err (
        domain
          "Existe uma operacao falha com checkout remoto criado. Requer reconciliacao antes de nova tentativa.")
    else if not (operation_status_eq o.status GatewayOperationStatus.failed)
    then err
        (domain "Ja existe uma operacao de criacao de checkout em andamento para essa referencia.")
    else ok tt
