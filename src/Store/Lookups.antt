-- ===== src/Store/Lookups.antt =====
-- The lookups of the repositories, which leave the database as it is.
use billing_core.Shared.{ℕ, Option}
use billing_core.Shared.Texts.{Text}
use billing_core.Domain.Enums.{System, GatewayProvider, GatewayOperationStatus}
use billing_core.Store.Integrity.{orderly_rules}
use billing_core.Store.Preserves.{
  Preserves, preserves_rules, Preserves-bind, Preserves-Keeps, Preserves-lift, both_view,
}
use billing_core.Store.Transactions.{Keeps-statement}
use billing_core.Store.Session.{Db, Session, statement}
use billing_core.Shared.Actions.{Result, lift, ◌>>◌}
use billing_core.Store.Repositories.{
  payment_by_provider_id, payment_by_external_reference, subscription_by_provider_id,
  event_by_event_id, payment_by_id, subscription_by_id, operation_by_dedupe_key,
  delivery_by_dedupe_key, payment_by_system_ref, subscription_by_system_ref,
  payments_of_subscription, pending_checkouts, operations_by_status,
}

pub Preserves-payment_by_provider_id :
    {P : Db → Type 0} (i : Option Text) → Preserves P (payment_by_provider_id i)
unfolding payment_by_provider_id
Preserves-payment_by_provider_id i = search preserves_rules

pub Preserves-payment_by_external_reference :
    {P : Db → Type 0} (i : Option Text) → Preserves P (payment_by_external_reference i)
unfolding payment_by_external_reference
Preserves-payment_by_external_reference i = search preserves_rules

pub Preserves-subscription_by_provider_id :
    {P : Db → Type 0} (i : Option Text) → Preserves P (subscription_by_provider_id i)
unfolding subscription_by_provider_id
Preserves-subscription_by_provider_id i = search preserves_rules

pub Preserves-event_by_event_id : {P : Db → Type 0} (i : Text) → Preserves P (event_by_event_id i)
unfolding event_by_event_id
Preserves-event_by_event_id i = search preserves_rules

pub Preserves-payment_by_id : {P : Db → Type 0} (n : ℕ) → Preserves P (payment_by_id n)
unfolding payment_by_id
Preserves-payment_by_id n = search preserves_rules

pub Preserves-subscription_by_id : {P : Db → Type 0} (n : ℕ) → Preserves P (subscription_by_id n)
unfolding subscription_by_id
Preserves-subscription_by_id n = search preserves_rules

pub Preserves-operation_by_dedupe_key :
    {P : Db → Type 0} (k : Text) → Preserves P (operation_by_dedupe_key k)
unfolding operation_by_dedupe_key
Preserves-operation_by_dedupe_key k = search preserves_rules

pub Preserves-delivery_by_dedupe_key :
    {P : Db → Type 0} (k : Text) → Preserves P (delivery_by_dedupe_key k)
unfolding delivery_by_dedupe_key
Preserves-delivery_by_dedupe_key k = search preserves_rules

pub Preserves-payment_by_system_ref :
    {P : Db → Type 0} (k : Text) (s : System) → Preserves P (payment_by_system_ref k s)
unfolding payment_by_system_ref
Preserves-payment_by_system_ref k s = search preserves_rules

pub Preserves-subscription_by_system_ref :
    {P : Db → Type 0} (k : Text) (s : System) → Preserves P (subscription_by_system_ref k s)
unfolding subscription_by_system_ref
Preserves-subscription_by_system_ref k s = search preserves_rules

module _ {P : Db → Type 0} {A : Type 0} (m : Session → Result A) where
  -- A statement that reads.
  pub Preserves-read : Preserves P (λ s. (statement >> lift (m s)) s)
  Preserves-read = record {
    at = λ s.
        (Preserves-bind {P = P} statement _ (Preserves-Keeps statement (Keeps-statement both_view))
            (λ _. Preserves-lift (m s))).at
          s;
  }

pub Preserves-payments_of_subscription :
    {P : Db → Type 0} (o : Option ℕ) → Preserves P (payments_of_subscription o)
unfolding payments_of_subscription
Preserves-payments_of_subscription o = Preserves-read _

pub Preserves-pending_checkouts :
    {P : Db → Type 0} (g : GatewayProvider) (n : ℕ) → Preserves P (pending_checkouts g n)
unfolding pending_checkouts
Preserves-pending_checkouts g n = Preserves-read _

pub Preserves-operations_by_status :
    {P : Db → Type 0} (t : GatewayOperationStatus) → Preserves P (operations_by_status t)
unfolding operations_by_status
Preserves-operations_by_status t = Preserves-read _

pub ruleset read_rules = (
  preserves_rules, Preserves-payment_by_provider_id, Preserves-payment_by_external_reference,
  Preserves-subscription_by_provider_id, Preserves-event_by_event_id, Preserves-payment_by_id,
  Preserves-subscription_by_id, Preserves-operation_by_dedupe_key, Preserves-delivery_by_dedupe_key,
  Preserves-payment_by_system_ref, Preserves-subscription_by_system_ref,
  Preserves-payments_of_subscription, Preserves-pending_checkouts, Preserves-operations_by_status,
)

pub ruleset lookup_rules = (orderly_rules, read_rules)
