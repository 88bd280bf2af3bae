-- ===== src/UseCases/Webhook/Handlers.antt =====
-- The branches of `ProcessWebhookService.execute`, each a function of its own.
use billing_core.Shared.{
  ℕ, Bool, true, false, not, ◌&&◌, ◌||◌, [], ◌∷◌, ◌++◌, Option, none, some, if◌then◌else◌,
}
use billing_core.Shared.Texts.{lit, is_truthy}
use billing_core.Shared.Actions.{
  domain, Result, ok, Action, pure, raise, lift, call, cases, ◌>>=◌, ◌>>◌,
}
use billing_core.Domain.Enums.{
  PaymentStatus, PaymentType, SubscriptionStatus, payment_status_eq, one_of, subscription_status_eq,
  payment_type_eq,
}
use billing_core.Domain.Calendar.{Datetime, same_instant}
use billing_core.Domain.Payment.{Payment, create_subscription_payment}
use billing_core.Domain.Payment.Methods.{mark_as_paid, mark_as_canceled}
use billing_core.Domain.Subscription
use billing_core.Domain.Subscription.{Subscription, cancel}
use billing_core.Domain.Event.{WebhookEvent}
use billing_core.Store.Session.{Session, save}
use billing_core.Store.Repositories.{
  payments, subscriptions, payment_by_provider_id, subscription_by_provider_id,
}
use billing_core.UseCases.Reconcile.{apply_gateway_payment_status}
use billing_core.UseCases.Webhook.Payload.{Details, WebhookPayload, InternalEventType, joined}
use billing_core.UseCases.Webhook.Steps.{
  Env, Answer, answer, finish, midnight, status_of, find_standalone, save_if,
  find_subscription_payment, payment_type_of, value_or, shown,
}

module _ (env : Env) where
  unfoldable pub standalone_found : WebhookEvent → WebhookPayload → Payment → Action Session Answer
  standalone_found event payload payment = do
    (changed, payment') ←
        call
          (apply_gateway_payment_status (some (status_of payload))
            (midnight payload.details.payment_date) payload.details.net_value (env.clock 1)
            (env.clock 2))
          payment
    saved ← save_if changed payment'
    finish event
        (if changed then answer InternalEventType.payment_status_updated saved.id none else none)

  -- A payment of no subscription.
  unfoldable pub process_standalone : WebhookEvent → WebhookPayload → Action Session Answer
  process_standalone event payload = do
    payment ← find_standalone payload.details
    cases payment (finish event none) λ p. standalone_found event payload p

  -- The payment that a notification of a subscription is about, made if it is not there.
  unfoldable pub payment_for : Subscription → Details → Option Payment → Result Payment
  payment_for sub details (some p) = ok p
  payment_for sub details none =
      create_subscription_payment
        (record {
          description = some (lit "Pagamento relacionado à assinatura: " ++ sub.description);
          gateway = sub.gateway_provider;
          system_payment_id = some (joined sub.system_subscription_id (shown details.id));
          provider_payment_id = details.id;
          value = value_or details.value sub.value;
          from_system = sub.from_system;
          checkout_link = none;
        })
        sub.id (payment_type_of details.billing_type) (env.clock 1)

  -- `details.payment_date or payment.paid_date`
  abbrev date_of : Details → Payment → Option Datetime
  date_of details p = elim details.payment_date [ none ↦ p.paid_date | some t ↦ some t ]

  -- `sub.last_paid_date != payment_date`
  abbrev pub differs : Option Datetime → Datetime → Bool
  differs none t = true
  differs (some u) t = not (same_instant u t)

  -- The subscription is paid and saved, if the test passes.
  unfoldable pub renew_if : Bool → Subscription → Datetime → Action Session Subscription
  renew_if due sub date =
      if due
      then (do
        (u, sub') ← call (Subscription.mark_as_paid (some date)) sub
        save subscriptions sub')
      else pure sub

  unfoldable pub received_paid :
      WebhookEvent → WebhookPayload → Subscription → Payment → Datetime → Action Session Answer
  received_paid event payload sub payment date = do
    (u, payment') ←
        call (mark_as_paid (some date) payload.details.net_value (env.clock 2) (env.clock 3))
          payment
    sub' ← renew_if (differs sub.last_paid_date date) sub date
    saved ← save payments payment'
    finish event (answer InternalEventType.payment_received saved.id sub'.id)

  unfoldable pub received_new :
      WebhookEvent → WebhookPayload → Subscription → Option Payment → Action Session Answer
  received_new event payload sub found = do
    payment ← lift (payment_for sub payload.details found)
    cases (date_of payload.details payment)
        (raise (domain "Webhook de pagamento recebido sem data de pagamento."))
        λ date. received_paid event payload sub payment date

  abbrev already_paid : Option Payment → Bool
  already_paid none = false
  already_paid (some p) = payment_status_eq p.payment_status PaymentStatus.paid

  abbrev id_of : Option Payment → Option ℕ
  id_of none = none
  id_of (some p) = p.id

  -- `PAYMENT_RECEIVED` of a subscription
  unfoldable pub process_received : WebhookEvent → WebhookPayload → Action Session Answer
  process_received event payload = do
    sub ← subscription_by_provider_id payload.details.subscription
    payment ← find_subscription_payment sub payload.details.id
    (if already_paid payment
        then finish event (answer InternalEventType.payment_received (id_of payment) sub.id)
        else received_new event payload sub payment)

  unfoldable pub confirmed_dated :
      WebhookEvent → WebhookPayload → Subscription → Payment → Datetime → Action Session Answer
  confirmed_dated event payload sub payment date = do
    (changed, payment') ←
        call
          (apply_gateway_payment_status (some (lit "CONFIRMED")) (some date)
            payload.details.net_value (env.clock 2) (env.clock 3))
          payment
    let is_credit_card = payment_type_eq payment'.payment_type PaymentType.credit_card
    let due = is_credit_card && differs sub.last_paid_date date
    sub' ← renew_if due sub date
    saved ← save_if (changed || due) payment'
    finish event (
        answer
          (if is_credit_card
            then InternalEventType.payment_received
            else InternalEventType.payment_status_updated)
          saved.id sub'.id)

  -- `PAYMENT_CONFIRMED` of a subscription
  unfoldable pub process_confirmed : WebhookEvent → WebhookPayload → Action Session Answer
  process_confirmed event payload = do
    sub ← subscription_by_provider_id payload.details.subscription
    found ← find_subscription_payment sub payload.details.id
    payment ← lift (payment_for sub payload.details found)
    cases (date_of payload.details payment)
        (raise (domain "Webhook de pagamento confirmado sem data de pagamento."))
        λ date. confirmed_dated event payload sub payment date

  unfoldable pub cancel_if_open : Option Payment → Action Session Unit
  cancel_if_open none = pure tt
  cancel_if_open (some p) =
      if one_of p.payment_status
        (PaymentStatus.pending ∷ PaymentStatus.overdue ∷ PaymentStatus.confirmed ∷ [])
      then (do (u, p') ← call (mark_as_canceled (env.clock 1)) p; save payments p'; pure tt)
      else pure tt

  -- `PAYMENT_DELETED` of a subscription
  unfoldable pub process_deleted : WebhookEvent → WebhookPayload → Action Session Answer
  process_deleted event payload = do
    payment ← payment_by_provider_id payload.details.id
    cancel_if_open payment
    finish event none

  unfoldable pub cancel_if_live : Subscription → Action Session Unit
  cancel_if_live sub =
      if not (subscription_status_eq sub.status SubscriptionStatus.canceled)
      then (do
        (u, sub') ← call (cancel none none none (env.clock 1)) sub
        save subscriptions sub'
        pure tt)
      else pure tt

  -- `SUBSCRIPTION_DELETED` and `SUBSCRIPTION_INACTIVATED`
  unfoldable pub process_ended : WebhookEvent → WebhookPayload → Action Session Answer
  process_ended event payload =
      if not (is_truthy payload.details.subscription)
      then raise (domain "Não é possível atualizar uma assinatura sem a identificação.")
      else (do
        sub ← subscription_by_provider_id payload.details.subscription
        cancel_if_live sub
        finish event (answer InternalEventType.subscription_inactivated none sub.id))
