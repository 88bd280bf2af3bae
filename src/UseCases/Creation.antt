-- ===== src/UseCases/Creation.antt =====
-- `CreateSubscription` of app/application/use_cases/create_subscription.py: a subscription of a
-- customer at a gateway, under an operation that keeps account of what was asked of the gateway.
pub mod Execute
pub mod Orderly
use billing_core.Shared.{ℕ, Bool, not, List, [], ◌∷◌, ◌++◌, Option, none, some, if◌then◌else◌}
use billing_core.Shared.Int.{ℤ}
use billing_core.Shared.Texts.{Text, lit, text_eq, upper, is_truthy}
use billing_core.Shared.Json.{Json}
use billing_core.Shared.Actions.{Error, domain, value_error, Result, ok, err}
use billing_core.Domain.Enums.{
  System, system_value, GatewayProvider, PaymentStatus, PaymentType, SubscriptionStatus,
  SubscriptionType, GatewayOperationStatus, operation_status_eq,
}
use billing_core.Domain.Calendar.{Datetime}
use billing_core.Domain.Payment.{Payment}
use billing_core.Domain.Subscription.{Subscription}
use billing_core.Domain.Operation.{GatewayOperation}

-- `CreateSubscriptionDTO`. A date is the midnight at which it begins.
pub record SubscriptionRequest : Type 0 where
  pub value : ℤ
  pub subscription_type : SubscriptionType
  pub next_due_date : Option Datetime
  pub description : Text
  pub system : System
  pub system_sub_id : Text
  pub expires_at : Datetime
  pub webhook_link : Text
  pub back_url : Option Text

-- `CreateSubscriptionResponse`
pub record SubscriptionResponse : Type 0 where
  pub subscription_id : ℕ
  pub payment_id : ℕ
  pub value : ℤ
  pub checkout_url : Option Text
  pub payment_status : PaymentStatus
  pub subscription_status : SubscriptionStatus

-- What `create_subscription` of a gateway takes.
pub record SubscriptionCall : Type 0 where
  pub customer_provider_id : Option Text
  pub billing_type : PaymentType
  pub value : ℤ
  pub next_due_date : Datetime
  pub cycle : SubscriptionType
  pub description : Text
  pub external_reference : Text
  pub back_url : Option Text

-- `SubscriptionPaymentResponse`, what is read of it.
pub record PaymentInfo : Type 0 where
  pub payment_id : Text
  pub status : Text
  pub value : ℤ
  pub invoice_url : Option Text
  pub billing_type : Option Text

-- What the use case takes from outside: the time, the request as JSON, the text of an exception,
-- and two calls of a gateway.
pub record CreationEnv : Type 0 where
  pub clock : ℕ → Datetime
  pub dump : SubscriptionRequest → Json
  pub message : Error → Text
  pub create_subscription : GatewayProvider → SubscriptionCall → Result Text
  pub get_subscription_payment : GatewayProvider → Text → Result (List PaymentInfo)

-- `CreateSubscriptionResponse(…)`: the schema refuses a missing identifier.
unfoldable pub creation_response : Subscription → Payment → Result SubscriptionResponse
creation_response s p = elim s.id [
  | none ↦ err (value_error "CreateSubscriptionResponse")
  | some subscription_id ↦ elim p.id [
    | none ↦ err (value_error "CreateSubscriptionResponse")
    | some payment_id ↦ ok (record {
      subscription_id = subscription_id;
      payment_id = payment_id;
      value = p.value;
      checkout_url = p.checkout_link;
      payment_status = p.payment_status;
      subscription_status = s.status;
    })
  ]
]

unfoldable pub creation_dedupe_key : SubscriptionRequest → Text
creation_dedupe_key r =
    lit "create_subscription" ++ (b':' ∷ system_value r.system) ++ (b':' ∷ r.system_sub_id)

-- The guards on the operation that is stored under the key.
unfoldable pub check_creation : Option GatewayOperation → Result (Unit {0})
check_creation none = ok tt
check_creation (some o) =
    if operation_status_eq o.status GatewayOperationStatus.completed
    then err (
        domain
          "Existe uma operacao concluida sem espelho local consistente. Requer reconciliacao antes de nova tentativa.")
    else if operation_status_eq o.status GatewayOperationStatus.requires_reconciliation
    then err (domain "Existe uma operacao pendente de reconciliacao para essa assinatura.")
    else if not (operation_status_eq o.status GatewayOperationStatus.failed)
    then err (
        domain "Ja existe uma operacao de criacao de assinatura em andamento para essa referencia.")
    else if is_truthy o.gateway_reference
    then err (
        domain
          "Operacao anterior falhou com referencia remota registrada. Requer reconciliacao antes de nova tentativa.")
    else ok tt

-- `next((item for item in items if test), None)`
unfoldable pub first_with : {A : Type 0} → (A → Bool) → List A → Option A
first_with test [] = none
first_with test (a ∷ l) = let rest = first_with test l in if test a then some a else rest

abbrev pub head_of : {A : Type 0} → List A → Option A
head_of [] = none
head_of (a ∷ l) = some a

-- The payment of the subscription that the answer is about.
unfoldable pub tracked_payment : List Payment → Option Payment
tracked_payment l = elim (first_with (λ p. is_truthy p.checkout_link) l) [
  | some p ↦ some p
  | none ↦ head_of l
]

unfoldable pub first_payment : List PaymentInfo → Option PaymentInfo
first_payment l = elim (first_with (λ i. text_eq (upper i.status) (lit "PENDING")) l) [
  | some i ↦ some i
  | none ↦ head_of l
]
