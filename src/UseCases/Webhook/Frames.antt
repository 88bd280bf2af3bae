-- ===== src/UseCases/Webhook/Frames.antt =====
-- What the steps of `ProcessWebhookService` leave of the database: they write payments and
-- subscriptions at most, and commit nothing.
use billing_core.Shared.{Bool, Option, none, some}
use billing_core.Shared.Texts.{Text}
use billing_core.Domain.Enums.{GatewayProvider}
use billing_core.Domain.Calendar.{Datetime}
use billing_core.Domain.Payment.{Payment}
use billing_core.Domain.Subscription.{Subscription}
use billing_core.Domain.Event.{WebhookEvent}
use billing_core.Store.Session.{Db}
use billing_core.Store.Repositories.{
  payments, subscriptions, payment_by_provider_id, payment_by_external_reference,
  subscription_by_provider_id, event_by_event_id,
}
use billing_core.Store.Transactions.{Keeps, Ignores, keeps_rules}
use billing_core.UseCases.Webhook.Payload.{WebhookPayload, Details}
use billing_core.UseCases.Webhook.Steps.{Env, find_standalone, save_if, find_subscription_payment}
use billing_core.UseCases.Webhook.Handlers.{renew_if, cancel_if_open, cancel_if_live}
use billing_core.UseCases.Webhook.Methods.{find_by_id, find_checkout}
use billing_core.UseCases.Webhook.Execute.{event_for}

module _ {C : Type 0} (view : Db → Db → C) where
  pub Keeps-payment_by_provider_id : (i : Option Text) → Keeps view (payment_by_provider_id i)
  unfolding payment_by_provider_id
  Keeps-payment_by_provider_id i = search keeps_rules

  pub Keeps-payment_by_external_reference :
      (i : Option Text) → Keeps view (payment_by_external_reference i)
  unfolding payment_by_external_reference
  Keeps-payment_by_external_reference i = search keeps_rules

  pub Keeps-subscription_by_provider_id :
      (i : Option Text) → Keeps view (subscription_by_provider_id i)
  unfolding subscription_by_provider_id
  Keeps-subscription_by_provider_id i = search keeps_rules

  pub Keeps-event_by_event_id : (i : Text) → Keeps view (event_by_event_id i)
  unfolding event_by_event_id
  Keeps-event_by_event_id i = search keeps_rules

pub ruleset lookups = (
  keeps_rules, Keeps-payment_by_provider_id, Keeps-payment_by_external_reference,
  Keeps-subscription_by_provider_id, Keeps-event_by_event_id,
)

module _ {C : Type 0} (view : Db → Db → C) (pays : Ignores view payments)
    (subs : Ignores view subscriptions) where
  pub Keeps-find_standalone : (d : Details) → Keeps view (find_standalone d)
  unfolding find_standalone
  Keeps-find_standalone d = search lookups

  pub Keeps-save_if : (b : Bool) (p : Payment) → Keeps view (save_if b p)
  unfolding save_if
  Keeps-save_if b p = search lookups

  pub Keeps-find_subscription_payment :
      (s : Subscription) (i : Option Text) → Keeps view (find_subscription_payment s i)
  unfolding find_subscription_payment
  Keeps-find_subscription_payment s i = search lookups

  pub Keeps-renew_if :
      (env : Env) (b : Bool) (s : Subscription) (t : Datetime) → Keeps view (renew_if env b s t)
  unfolding renew_if
  Keeps-renew_if env b s t = search lookups

  pub Keeps-find_by_id : (env : Env) (d : Details) → Keeps view (find_by_id env d)
  unfolding find_by_id
  Keeps-find_by_id env d = search lookups

  pub Keeps-find_checkout : (env : Env) (d : Details) → Keeps view (find_checkout env d)
  unfolding find_checkout
  Keeps-find_checkout env d = search (lookups, Keeps-find_by_id)

  pub Keeps-cancel_if_open : (env : Env) (p : Option Payment) → Keeps view (cancel_if_open env p)
  unfolding cancel_if_open
  Keeps-cancel_if_open env none = search lookups
  Keeps-cancel_if_open env (some p) = search lookups

  pub Keeps-cancel_if_live : (env : Env) (s : Subscription) → Keeps view (cancel_if_live env s)
  unfolding cancel_if_live
  Keeps-cancel_if_live env s = search lookups

  pub Keeps-event_for :
      (env : Env) (i : Text) (g : GatewayProvider) (w : WebhookPayload) (e : Option WebhookEvent)
      → Keeps view (event_for env i g w e)
  unfolding event_for
  Keeps-event_for env i g w none = search lookups
  Keeps-event_for env i g w (some e) = search lookups

pub ruleset steps = (
  lookups, Keeps-find_standalone, Keeps-save_if, Keeps-find_subscription_payment, Keeps-renew_if,
  Keeps-find_by_id, Keeps-find_checkout, Keeps-cancel_if_open, Keeps-cancel_if_live,
  Keeps-event_for,
)
