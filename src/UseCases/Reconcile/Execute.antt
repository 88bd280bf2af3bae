-- ===== src/UseCases/Reconcile/Execute.antt =====
-- The two use cases that ask the gateway for the state of a payment: `ReconcilePayment.execute` of
-- app/application/use_cases/reconcile_payment.py and `SyncCheckoutStatus.execute` of
-- app/application/use_cases/sync_checkout_status.py.
use billing_core.Shared.{Bool, true, false, not, Option, none, some, if◌then◌else◌, [], ◌∷◌, ℕ}
use billing_core.Shared.Int.{ℤ}
use billing_core.Shared.Texts.{Text, lit, text_eq, upper}
use billing_core.Shared.Actions.{domain, Result, Action, pure, raise_if, lift, call, ◌>>=◌, ◌>>◌}
use billing_core.Domain.Enums.{GatewayProvider, PaymentStatus, one_of}
use billing_core.Domain.Calendar.{Datetime}
use billing_core.Domain.Payment.{Payment}
use billing_core.Domain.Payment.Methods.{mark_as_paid, mark_as_expired, mark_as_canceled}
use billing_core.Store.Session.{Session, commit, save}
use billing_core.Store.Repositories.{payments, payment_by_id}
use billing_core.UseCases.Reconcile.{apply_gateway_payment_status}

-- `PaymentStatusGatewayResponse`, what the use case reads of it. The date is its midnight in UTC.
pub record RemotePayment : Type 0 where
  pub status : Text
  pub payment_date : Option Datetime
  pub net_value : Option ℤ

-- The response to `get_checkout`, what the use case reads of it.
pub record RemoteCheckout : Type 0 where
  pub status : Text
  pub external_reference : Option Text

pub record ReconcileEnv : Type 0 where
  pub clock : ℕ → Datetime
  pub get_payment : GatewayProvider → Text → Result RemotePayment
  pub get_checkout : GatewayProvider → Text → Result RemoteCheckout

-- `a != b`, of optional texts
abbrev differ : Option Text → Option Text → Bool
differ none none = false
differ none (some t) = true
differ (some s) none = true
differ (some s) (some t) = not (text_eq s t)

unfoldable pub store_payment : Payment → Action Session (Option Payment)
store_payment p = do saved ← save payments p; commit; pure (some saved)

module _ (env : ReconcileEnv) where
  unfoldable pub reconcile_open : Payment → Action Session (Option Payment)
  reconcile_open payment = do
    remote ← lift (env.get_payment payment.gateway payment.provider_payment_id)
    (changed, payment') ←
        call
          (apply_gateway_payment_status (some remote.status) remote.payment_date remote.net_value
            (env.clock 0) (env.clock 1))
          payment
    (if not changed then pure none else store_payment payment')

  -- `ReconcilePayment.execute`
  unfoldable pub reconcile_payment : ℕ → Action Session (Option Payment)
  reconcile_payment payment_id = do
    payment ← payment_by_id payment_id
    (if not (
          one_of payment.payment_status
            (PaymentStatus.pending ∷ PaymentStatus.overdue ∷ PaymentStatus.confirmed ∷ []))
        then pure none
        else reconcile_open payment)

  -- The method that the status of the checkout asks for, if any.
  unfoldable pub checkout_method : Text → Option (Action Payment Unit)
  checkout_method status =
      if text_eq status (lit "PAID")
      then some (mark_as_paid (some (env.clock 0)) none (env.clock 1) (env.clock 2))
      else if text_eq status (lit "EXPIRED")
      then some (mark_as_expired (env.clock 1))
      else if text_eq status (lit "CANCELED")
      then some (mark_as_canceled (env.clock 1))
      else none

  unfoldable pub apply_method :
      Option (Action Payment Unit) → Payment → Action Session (Option Payment)
  apply_method none payment = pure none
  apply_method (some method) payment = do
    (u, payment') ← call method payment
    store_payment payment'

  -- `SyncCheckoutStatus.execute`
  unfoldable pub sync_checkout_status : Payment → Action Session (Option Payment)
  sync_checkout_status payment = do
    checkout ← lift (env.get_checkout payment.gateway payment.provider_payment_id)
    raise_if (differ checkout.external_reference payment.external_reference)
        (domain "Checkout remoto retornou external_reference divergente durante sincronizacao.")
    apply_method (checkout_method (upper checkout.status)) payment
