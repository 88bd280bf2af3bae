-- ===== src/Domain/Subscription.antt =====
-- app/domain/entities/subscription.py: the subscription and its methods. `_add_billing_period` is
-- in Calendar.
pub mod Renewal
pub mod Lifecycle
use billing_core.Shared.{
  ℕ, Bool, false, not, ◌&&◌, ◌||◌, Option, none, some, if◌then◌else◌, is_some, or_else,
}
use billing_core.Shared.Int.{ℤ, is_negative}
use billing_core.Shared.Texts.{Text, strip, is_empty, or_empty, stripped_or_none}
use billing_core.Shared.Actions.{
  domain, Result, ok, err, Action, pure, raise, lift, gets, raise_if, modify, ◌>>=◌, ◌>>◌,
}
use billing_core.Domain.Enums.{
  GatewayProvider, SubscriptionStatus, SubscriptionType, System, subscription_status_eq, system_eq,
}
use billing_core.Domain.Calendar.{Datetime, is_earlier, latest, add_billing_period}

pub record Subscription : Type 0 where
  pub id : Option ℕ
  pub initial_date : Datetime
  pub description : Text
  pub system_subscription_id : Text
  pub gateway_subscription_id : Text
  pub gateway_provider : GatewayProvider
  pub status : SubscriptionStatus
  pub last_paid_date : Option Datetime
  pub from_system : System
  pub subscription_type : SubscriptionType
  pub expires_at : Datetime
  pub trial_days : ℤ
  pub value : ℤ
  pub trial_ends_at : Option Datetime
  pub next_due_date : Option Datetime
  pub cancelled_at : Option Datetime
  pub cancellation_requested_at : Option Datetime
  pub cancellation_reason : Option Text
  pub cancellation_job_id : Option Text
  pub webhook_link : Option Text

-- `__init__`: the second to fourth arguments are the texts as they are given.
unfoldable pub construct :
    Subscription → Option Text → Option Text → Option Text → Result Subscription
unfolding stripped_or_none
construct s description system_ref gateway_ref =
    let d = strip (or_empty description) in
    let r = strip (or_empty system_ref) in
    let g = strip (or_empty gateway_ref) in
    if is_empty d
    then err (domain "Assinatura precisa ter descrição.")
    else if is_empty r
    then err (domain "Assinatura precisa ter identificador do sistema.")
    else if is_empty g
    then err (domain "Assinatura precisa ter identificador do gateway.")
    else if is_negative s.value
    then err (domain "Assinatura não pode ter valor negativo.")
    else if is_negative s.trial_days
    then err (domain "Assinatura não pode ter trial negativo.")
    else ok (record s {
      description = d;
      system_subscription_id = r;
      gateway_subscription_id = g;
      cancellation_reason = stripped_or_none s.cancellation_reason;
      cancellation_job_id = stripped_or_none s.cancellation_job_id;
    })

-- The rest of `mark_as_paid`, for a date that is given.
extend : Datetime → Action Subscription Unit
unfolding ◌>>=◌ raise_if modify lift gets
extend payment_date s =
    (do
      raise_if (subscription_status_eq s.status SubscriptionStatus.canceled)
          (domain "Assinatura cancelada não pode ser reativada por esse fluxo.")
      modify λ t. record t { last_paid_date = some payment_date }
      expires ← lift (add_billing_period (latest payment_date s.expires_at) s.subscription_type)
      modify λ t. record t { expires_at = expires }
      modify λ t. record t { status = SubscriptionStatus.active })
      s

unfoldable pub mark_as_paid : Option Datetime → Action Subscription Unit
unfolding extend raise
mark_as_paid none = raise (domain "Assinatura não pode ser ativada sem data de pagamento.")
mark_as_paid (some payment_date) = extend payment_date

unfoldable pub is_in_trial : Subscription → Datetime → Bool
is_in_trial s now = elim s.trial_ends_at [ none ↦ false | some end ↦ is_earlier now end ]

unfoldable pub is_active : Subscription → Datetime → Bool
is_active s now =
    subscription_status_eq s.status SubscriptionStatus.active && is_earlier now s.expires_at

abbrev pub belongs_to_system : Subscription → System → Bool
belongs_to_system s system = system_eq s.from_system system

unfoldable pub request_cancellation :
    Option Text → Option Text → Datetime → Action Subscription Unit
unfolding ◌>>=◌ raise_if modify raise pure stripped_or_none
request_cancellation reason job_id now s =
    (if subscription_status_eq s.status SubscriptionStatus.canceled
        then raise (domain "Assinatura ja cancelada.")
        else if subscription_status_eq s.status SubscriptionStatus.cancellation_pending
        then pure tt
        else (do
          raise_if
              (not (
                subscription_status_eq s.status SubscriptionStatus.pending
                || subscription_status_eq s.status SubscriptionStatus.active))
              (domain "Assinatura nao pode ser cancelada no estado atual.")
          modify λ t. record t {
            status = SubscriptionStatus.cancellation_pending;
            cancellation_requested_at = some now;
            cancellation_reason = stripped_or_none reason;
            cancellation_job_id = stripped_or_none job_id;
          }))
      s

-- A new text if one is given that is not blank, else the old one.
replaced : Option Text → Option Text → Option Text
unfolding stripped_or_none
replaced given old = let n = stripped_or_none given in if is_some n then n else old

unfoldable pub cancel :
    Option Datetime → Option Text → Option Text → Datetime → Action Subscription Unit
unfolding replaced
cancel cancelled_at reason job_id now s =
    let at = or_else cancelled_at now in
    if subscription_status_eq s.status SubscriptionStatus.canceled then (ok tt, s) else (
      ok tt,
      record s {
        status = SubscriptionStatus.canceled;
        cancelled_at = some at;
        cancellation_reason = replaced reason s.cancellation_reason;
        cancellation_job_id = replaced job_id s.cancellation_job_id;
        cancellation_requested_at = some (or_else s.cancellation_requested_at at);
      },
    )
