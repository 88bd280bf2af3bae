-- ===== src/UseCases/Reconcile.antt =====
-- `apply_gateway_payment_status` of app/application/use_cases/reconcile_payment.py: what a status
-- of the gateway does to a payment.
pub mod Execute
pub mod Orderly
pub mod Stored
pub mod Table
mod Examples
use billing_core.Shared.{Bool, not, ◌||◌, [], ◌∷◌, Option, if◌then◌else◌}
use billing_core.Shared.Int.{ℤ}
use billing_core.Shared.Texts.{Text, lit, text_eq, upper, or_empty}
use billing_core.Shared.Actions.{Action, pure, gets, ◌>>=◌, ◌>>◌}
use billing_core.Domain.Enums.{PaymentStatus, payment_status_eq, one_of}
use billing_core.Domain.Calendar.{Datetime}
use billing_core.Domain.Payment.{Payment}
use billing_core.Domain.Payment.Methods.{
  mark_as_canceled, mark_as_confirmed, mark_as_overdue, mark_as_paid, mark_as_refunded,
}

-- The chain of tests on the status, in capitals. A date without a time is the datetime of its
-- midnight in UTC, so `dt` is the date that is given.
unfoldable pub apply_normalized :
    Text → Option Datetime → Option ℤ → Datetime → Datetime → Action Payment Unit
unfolding mark_as_confirmed mark_as_paid mark_as_overdue mark_as_refunded mark_as_canceled
apply_normalized normalized dt net_value now later p =
    (if text_eq normalized (lit "CONFIRMED")
        then mark_as_confirmed dt net_value now later
        else if text_eq normalized (lit "RECEIVED")
        then mark_as_paid dt net_value now later
        else if text_eq normalized (lit "OVERDUE")
        then mark_as_overdue now
        else if text_eq normalized (lit "REFUNDED")
            || text_eq normalized (lit "CHARGEBACK_REQUESTED")
        then (if one_of p.payment_status (PaymentStatus.paid ∷ PaymentStatus.confirmed ∷ [])
            then mark_as_refunded now
            else pure tt)
        else if text_eq normalized (lit "DELETED")
        then (if one_of p.payment_status
              (PaymentStatus.pending ∷ PaymentStatus.overdue ∷ PaymentStatus.confirmed ∷ [])
            then mark_as_canceled now
            else pure tt)
        else pure tt)
      p

-- The result says whether the status of the payment has changed.
unfoldable pub apply_gateway_payment_status :
    Option Text → Option Datetime → Option ℤ → Datetime → Datetime → Action Payment Bool
unfolding apply_normalized ◌>>=◌
apply_gateway_payment_status status payment_date net_value now later p =
    (do
      apply_normalized (upper (or_empty status)) payment_date net_value now later
      gets λ q. not (payment_status_eq p.payment_status q.payment_status))
      p
