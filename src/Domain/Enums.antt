-- ===== src/Domain/Enums.antt =====
-- The enums of app/domain/enums, their values, and the tests of their members.
use billing_core.Shared.{
  ℕ, ◌≡◌, ◌↔◌, Bool, false, ◌||◌, List, [], ◌∷◌, Option, none, some, arith, ◌==◌, if◌then◌else◌,
}
use billing_core.Shared.Texts.{Text, lit, text_eq}
use billing_core.Shared.Actions.{key_error, Result, ok, err}

pub data PaymentStatus : Type 0 where
  pending confirmed paid overdue failed canceled expired refunded : PaymentStatus

pub data PaymentType : Type 0 where
  credit_card boleto pix debit_card undefined : PaymentType

pub data MovimentationType : Type 0 where
  default_payment subscription_payment : MovimentationType

pub data SubscriptionStatus : Type 0 where
  pending active cancellation_pending canceled : SubscriptionStatus

pub data SubscriptionType : Type 0 where
  monthly semiannual yearly : SubscriptionType

pub data GatewayProvider : Type 0 where
  asaas mercadopago : GatewayProvider

pub data GatewayOperationStatus : Type 0 where
  pending completed failed requires_reconciliation : GatewayOperationStatus

pub data DeliveryStatus : Type 0 where
  pending retrying delivered failed : DeliveryStatus

pub data System : Type 0 where
  marketfy neectify_shop neectify_food : System

-- The place of a member in its enum; members are compared by it.
abbrev payment_rank : PaymentStatus → ℕ
payment_rank PaymentStatus.pending = 0
payment_rank PaymentStatus.confirmed = 1
payment_rank PaymentStatus.paid = 2
payment_rank PaymentStatus.overdue = 3
payment_rank PaymentStatus.failed = 4
payment_rank PaymentStatus.canceled = 5
payment_rank PaymentStatus.expired = 6
payment_rank PaymentStatus.refunded = 7

-- `a == b`
abbrev pub payment_status_eq : PaymentStatus → PaymentStatus → Bool
payment_status_eq a b = payment_rank a == payment_rank b

-- `a in {…}`
abbrev pub one_of : PaymentStatus → List PaymentStatus → Bool
one_of a [] = false
one_of a (b ∷ l) = payment_status_eq a b || one_of a l

abbrev subscription_rank : SubscriptionStatus → ℕ
subscription_rank SubscriptionStatus.pending = 0
subscription_rank SubscriptionStatus.active = 1
subscription_rank SubscriptionStatus.cancellation_pending = 2
subscription_rank SubscriptionStatus.canceled = 3

abbrev pub subscription_status_eq : SubscriptionStatus → SubscriptionStatus → Bool
subscription_status_eq a b = subscription_rank a == subscription_rank b

abbrev operation_rank : GatewayOperationStatus → ℕ
operation_rank GatewayOperationStatus.pending = 0
operation_rank GatewayOperationStatus.completed = 1
operation_rank GatewayOperationStatus.failed = 2
operation_rank GatewayOperationStatus.requires_reconciliation = 3

abbrev pub operation_status_eq : GatewayOperationStatus → GatewayOperationStatus → Bool
operation_status_eq a b = operation_rank a == operation_rank b

abbrev system_rank : System → ℕ
system_rank System.marketfy = 0
system_rank System.neectify_shop = 1
system_rank System.neectify_food = 2

abbrev pub system_eq : System → System → Bool
system_eq a b = system_rank a == system_rank b

abbrev pub movimentation_eq : MovimentationType → MovimentationType → Bool
movimentation_eq MovimentationType.default_payment MovimentationType.default_payment = Bool.true
movimentation_eq MovimentationType.subscription_payment MovimentationType.subscription_payment =
    Bool.true
movimentation_eq _ _ = false

abbrev payment_type_rank : PaymentType → ℕ
payment_type_rank PaymentType.credit_card = 0
payment_type_rank PaymentType.boleto = 1
payment_type_rank PaymentType.pix = 2
payment_type_rank PaymentType.debit_card = 3
payment_type_rank PaymentType.undefined = 4

abbrev pub payment_type_eq : PaymentType → PaymentType → Bool
payment_type_eq a b = payment_type_rank a == payment_type_rank b

pub payment_status_eq_iff : (a b : PaymentStatus) → (payment_status_eq a b ≡ Bool.true) ↔ (a ≡ b)
payment_status_eq_iff a b = ground arith

-- `PaymentStatus.value`
unfoldable pub payment_status_value : PaymentStatus → Text
payment_status_value PaymentStatus.pending = lit "pending"
payment_status_value PaymentStatus.confirmed = lit "confirmed"
payment_status_value PaymentStatus.paid = lit "paid"
payment_status_value PaymentStatus.overdue = lit "overdue"
payment_status_value PaymentStatus.failed = lit "failed"
payment_status_value PaymentStatus.canceled = lit "canceled"
payment_status_value PaymentStatus.expired = lit "expired"
payment_status_value PaymentStatus.refunded = lit "refunded"

-- `System.value`
unfoldable pub system_value : System → Text
system_value System.marketfy = lit "marketfy"
system_value System.neectify_shop = lit "neectify_shop"
system_value System.neectify_food = lit "neectify_food"

-- `GatewayProvider.value`
unfoldable pub provider_value : GatewayProvider → Text
provider_value GatewayProvider.asaas = lit "asaas"
provider_value GatewayProvider.mercadopago = lit "mercadopago"

-- `GatewayProvider.name`
unfoldable pub provider_name : GatewayProvider → Text
provider_name GatewayProvider.asaas = lit "ASAAS"
provider_name GatewayProvider.mercadopago = lit "MERCADOPAGO"

-- `GatewayProvider[name]`
unfoldable pub provider_named : Text → Result GatewayProvider
provider_named s =
    if text_eq s (lit "ASAAS")
    then ok GatewayProvider.asaas
    else if text_eq s (lit "MERCADOPAGO")
    then ok GatewayProvider.mercadopago
    else err key_error

-- `PaymentType[name]`, which raises `KeyError` (`none`) on a name of no member.
unfoldable pub payment_type_named : Text → Option PaymentType
payment_type_named s =
    if text_eq s (lit "CREDIT_CARD")
    then some PaymentType.credit_card
    else if text_eq s (lit "BOLETO")
    then some PaymentType.boleto
    else if text_eq s (lit "PIX")
    then some PaymentType.pix
    else if text_eq s (lit "DEBIT_CARD")
    then some PaymentType.debit_card
    else if text_eq s (lit "UNDEFINED")
    then some PaymentType.undefined
    else none
