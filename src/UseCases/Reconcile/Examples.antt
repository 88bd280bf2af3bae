-- ===== src/UseCases/Reconcile/Examples.antt =====
-- A payment under signals of the gateway, and a gateway that does not answer.
use billing_core.Domain.Payment
use billing_core.Store.Session.{Session, opened, get_by_key, statement}
use billing_core.Store.Tables.{find_key}
use billing_core.Store.Repositories.{payment_by_id}
use billing_core.UseCases.Reconcile.Execute.{
  ReconcileEnv, reconcile_open, reconcile_payment, sync_checkout_status,
}
use billing_core.UseCases.Reconcile.Stored.{reconcile_payment-Answers, sync_checkout_status-Answers}
use billing_core.Shared.{◌≡◌, refl, [], ◌∷◌, ◌≢◌, false, none, some, arith}
use billing_core.Shared.Int.{pos}
use billing_core.Shared.Texts.{lit, strip, text_eq, upper}
use billing_core.Shared.Actions.{ok, err, request_failed, lift, ◌>>=◌}
use billing_core.Domain.Examples.{day, open_payment}
use billing_core.Domain.Enums.{PaymentStatus}
use billing_core.Domain.Payment.{Payment}
use billing_core.UseCases.Reconcile.{apply_gateway_payment_status}
use billing_core.UseCases.Reconcile.Table.{Signal, word, table, Agrees, apply-Agrees, apply_again}

apply-Agrees_example : Agrees open_payment (some PaymentStatus.paid) (
    apply_gateway_payment_status
      (some (lit "Received"))
      none
      (some (pos 9))
      (day 2 1)
      (day 2 1)
      open_payment)
unfolding upper lit word table
apply-Agrees_example =
    apply-Agrees Signal.received (some (lit "Received")) none (some (pos 9)) (day 2 1) (day 2 1)
      open_payment refl refl

abbrev confirmed_once : Payment
confirmed_once =
    (apply_gateway_payment_status (some (lit "CONFIRMED")) none none (day 2 1) (day 2 1)
      open_payment).1

apply_again_example :
    let again =
      apply_gateway_payment_status
        (some (lit "CONFIRMED"))
        none
        none
        (day 2 3)
        (day 2 3)
        confirmed_once in
    (again.0 ≡ ok false) × (again.1.payment_status ≡ confirmed_once.payment_status)
unfolding apply_gateway_payment_status upper lit text_eq
apply_again_example =
    apply_again (some (lit "CONFIRMED")) none none none none (day 2 1) (day 2 1) (day 2 3) (day 2 3)
      open_payment refl

-- A gateway that does not answer.
abbrev silent : ReconcileEnv
silent = record {
  clock = λ n. day 3 1;
  get_payment = λ g i. err request_failed;
  get_checkout = λ g i. err request_failed;
}

abbrev session : Session
session = opened (record {
  payments = open_payment ∷ [];
  subscriptions = [];
  events = [];
  operations = [];
  deliveries = [];
  next_id = 10;
})

unanswered : (p : Payment) → (reconcile_payment silent 4 session).0 ≢ ok (some p)
unfolding reconcile_payment reconcile_open payment_by_id get_by_key statement find_key lift ◌>>=◌
    Payment.construct strip lit
unanswered p h = ground arith

reconcile_payment-Answers_example :
    (reconcile_payment silent 4 session).1.committed ≡ session.committed
reconcile_payment-Answers_example = reconcile_payment-Answers silent 4 session unanswered

unsynchronised : (p : Payment) → (sync_checkout_status silent open_payment session).0 ≢ ok (some p)
unfolding sync_checkout_status lift ◌>>=◌
unsynchronised p h = ground arith

sync_checkout_status-Answers_example :
    (sync_checkout_status silent open_payment session).1.committed ≡ session.committed
sync_checkout_status-Answers_example =
    sync_checkout_status-Answers silent open_payment session unsynchronised
