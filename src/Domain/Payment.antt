-- ===== src/Domain/Payment.antt =====
-- app/domain/entities/payment.py: the payment and its constructors. One that asks
-- for the time takes it as an argument.
pub mod Methods
pub mod Lifecycle
pub mod Invariant
use billing_core.Shared.{ℕ, [], Option, none, some, if◌then◌else◌, or_else}
use billing_core.Shared.Int.{ℤ, pos, is_negative, is_nonpositive}
use billing_core.Shared.Texts.{Text, strip, is_empty, or_empty, is_truthy}
use billing_core.Shared.Actions.{domain, Result, ok, err, ◌>>=◌, ◌>>◌}
use billing_core.Domain.Enums.{
  GatewayProvider, PaymentStatus, PaymentType, MovimentationType, System,
}
use billing_core.Domain.Calendar.{Datetime}

pub record Payment : Type 0 where
  pub id : Option ℕ
  pub description : Option Text
  pub gateway : GatewayProvider
  pub system_payment_id : Text
  pub provider_payment_id : Text
  pub value : ℤ
  pub net_value : Option ℤ
  pub from_system : System
  pub payment_status : PaymentStatus
  pub payment_type : PaymentType
  pub movimentation_type : MovimentationType
  pub paid_date : Option Datetime
  pub canceled_date : Option Datetime
  pub refunded_date : Option Datetime
  pub failed_date : Option Datetime
  pub checkout_link : Option Text
  pub subscription_id : Option ℕ
  pub webhook_link : Option Text
  pub due_date : Option Datetime
  pub external_reference : Option Text
  pub created_at : Datetime
  pub updated_at : Datetime

-- The arguments of the constructor that it does not take over as they are.
pub record Draft : Type 0 where
  pub payment : Payment
  pub system_ref : Option Text
  pub provider_ref : Option Text
  pub created : Option Datetime
  pub updated : Option Datetime

-- `description.strip() if description else None`
stripped : Option Text → Option Text
stripped o = if is_truthy o then some (strip (or_empty o)) else none

-- `__init__`. The last argument is the time that it asks for.
unfoldable pub construct : Draft → Datetime → Result Payment
unfolding stripped
construct d now =
    let system_ref = strip (or_empty d.system_ref) in
    let provider_ref = strip (or_empty d.provider_ref) in
    let created = or_else d.created now in
    if is_empty system_ref
    then err (domain "Pagamento precisa ter identificador do sistema.")
    else if is_empty provider_ref
    then err (domain "Pagamento precisa ter identificador do gateway.")
    else if is_nonpositive d.payment.value
    then err (domain "Pagamento precisa ter valor positivo.")
    else if is_negative (or_else d.payment.net_value (pos 0))
    then err (domain "Pagamento nao pode ter valor liquido negativo.")
    else ok (record d.payment {
      description = stripped d.payment.description;
      system_payment_id = system_ref;
      provider_payment_id = provider_ref;
      external_reference = stripped d.payment.external_reference;
      created_at = created;
      updated_at = or_else d.updated created;
    })

-- The arguments that the two class methods share.
pub record Fresh : Type 0 where
  pub description : Option Text
  pub gateway : GatewayProvider
  pub system_payment_id : Option Text
  pub provider_payment_id : Option Text
  pub value : ℤ
  pub from_system : System
  pub checkout_link : Option Text

-- `Payment(…)` with the defaults of its other arguments.
fresh_draft : Fresh → Datetime → Draft
fresh_draft f now = record {
  payment = record {
    id = none;
    description = f.description;
    gateway = f.gateway;
    system_payment_id = [];
    provider_payment_id = [];
    value = f.value;
    net_value = some (pos 0);
    from_system = f.from_system;
    payment_status = PaymentStatus.pending;
    payment_type = PaymentType.pix;
    movimentation_type = MovimentationType.default_payment;
    paid_date = none;
    canceled_date = none;
    refunded_date = none;
    failed_date = none;
    checkout_link = f.checkout_link;
    subscription_id = none;
    webhook_link = none;
    due_date = none;
    external_reference = none;
    created_at = now;
    updated_at = now;
  };
  system_ref = f.system_payment_id;
  provider_ref = f.provider_payment_id;
  created = none;
  updated = none;
}

unfoldable pub create_subscription_payment :
    Fresh → Option ℕ → PaymentType → Datetime → Result Payment
unfolding construct fresh_draft
create_subscription_payment f subscription kind now =
    let d = fresh_draft f now in
    construct
      (record d {
        payment = record d.payment {
          subscription_id = subscription;
          payment_type = kind;
          movimentation_type = MovimentationType.subscription_payment;
        };
      })
      now

unfoldable pub create_standalone_payment :
    Fresh → Option Text → Option Datetime → Text → Datetime → Result Payment
unfolding construct fresh_draft
create_standalone_payment f webhook_link due_date external_reference now =
    let d = fresh_draft f now in
    construct
      (record d {
        payment = record d.payment {
          webhook_link = webhook_link;
          due_date = due_date;
          external_reference = some external_reference;
          movimentation_type = MovimentationType.default_payment;
        };
      })
      now
