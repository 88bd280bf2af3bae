-- ===== src/Store/Repositories.antt =====
-- The tables, with their unique constraints (app/infra/db/models), and the queries of app/infra/repo.
use billing_core.Shared.{
  ℕ, Bool, false, not, ◌&&◌, ◌||◌, List, [], ◌∷◌, Option, none, some, is_some, take, select, true,
  ◌==◌, if◌then◌else◌,
}
use billing_core.Shared.Texts.{Text, text_eq}
use billing_core.Shared.Actions.{Result, ok, err, Action, lift, ◌>>◌}
use billing_core.Domain.Enums.{
  System, system_eq, GatewayProvider, provider_value, PaymentStatus, payment_status_eq,
  MovimentationType, movimentation_eq, GatewayOperationStatus, operation_status_eq,
}
use billing_core.Domain.Calendar.{Datetime, is_earlier}
use billing_core.Domain.Payment
use billing_core.Domain.Payment.{Payment}
use billing_core.Domain.Subscription
use billing_core.Domain.Subscription.{Subscription}
use billing_core.Domain.Operation
use billing_core.Domain.Operation.{GatewayOperation}
use billing_core.Domain.Delivery
use billing_core.Domain.Delivery.{Delivery}
use billing_core.Domain.Event
use billing_core.Domain.Event.{WebhookEvent}
use billing_core.Store.Session.{Session, Table, statement, query, query_or_raise, get_by_key}

abbrev pub payments : Table Payment
payments = record {
  row = record {
    key = λ p. p.id;
    with_key = λ n p. record p { id = some n };
    clashes = λ p q.
        text_eq p.provider_payment_id q.provider_payment_id
        || (text_eq p.system_payment_id q.system_payment_id
            && system_eq p.from_system q.from_system);
    written = λ old p. p;
    to_domain = λ p.
        Payment.construct
          (record {
            payment = p;
            system_ref = some p.system_payment_id;
            provider_ref = some p.provider_payment_id;
            created = some p.created_at;
            updated = some p.updated_at;
          })
          p.created_at;
  };
  rows = λ d. d.payments;
  with_rows = λ l d. record d { payments = l };
}

abbrev pub subscriptions : Table Subscription
subscriptions = record {
  row = record {
    key = λ s. s.id;
    with_key = λ n s. record s { id = some n };
    clashes = λ s t.
        text_eq s.gateway_subscription_id t.gateway_subscription_id
        || (text_eq s.system_subscription_id t.system_subscription_id
            && system_eq s.from_system t.from_system);
    written = λ old s. s;
    to_domain = λ s.
        Subscription.construct s (some s.description) (some s.system_subscription_id)
          (some s.gateway_subscription_id);
  };
  rows = λ d. d.subscriptions;
  with_rows = λ l d. record d { subscriptions = l };
}

-- `save` writes only `processed` to a stored event.
abbrev pub events : Table WebhookEvent
events = record {
  row = record {
    key = λ e. e.id;
    with_key = λ n e. record e { id = some n };
    clashes = λ e f. text_eq e.event_id f.event_id;
    written = λ old e. record old { processed = e.processed };
    to_domain = Event.construct;
  };
  rows = λ d. d.events;
  with_rows = λ l d. record d { events = l };
}

-- `save` writes these four fields to a stored operation.
abbrev pub operations : Table GatewayOperation
operations = record {
  row = record {
    key = λ o. o.id;
    with_key = λ n o. record o { id = some n };
    clashes = λ o p. text_eq o.dedupe_key p.dedupe_key;
    written = λ old o. record old {
      status = o.status;
      gateway_reference = o.gateway_reference;
      error_message = o.error_message;
      updated_at = o.updated_at;
    };
    to_domain = Operation.construct;
  };
  rows = λ d. d.operations;
  with_rows = λ l d. record d { operations = l };
}

abbrev pub deliveries : Table Delivery
deliveries = record {
  row = record {
    key = λ d. d.id;
    with_key = λ n d. record d { id = some n };
    clashes = λ d e. text_eq d.dedupe_key e.dedupe_key;
    written = λ old d. record old {
      status = d.status;
      attempt_count = d.attempt_count;
      last_error = d.last_error;
      last_attempt_at = d.last_attempt_at;
      delivered_at = d.delivered_at;
      updated_at = d.updated_at;
    };
    to_domain = Delivery.construct;
  };
  rows = λ d. d.deliveries;
  with_rows = λ l d. record d { deliveries = l };
}

-- A column that is compared with an optional text: no row has the value `None`.
abbrev pub column_eq : Text → Option Text → Bool
column_eq s none = false
column_eq s (some t) = text_eq s t

unfoldable pub payment_by_provider_id : Option Text → Action Session (Option Payment)
payment_by_provider_id i = query payments λ p. column_eq p.provider_payment_id i

unfoldable pub payment_by_external_reference : Option Text → Action Session (Option Payment)
payment_by_external_reference ref =
    query payments λ p. elim p.external_reference [ none ↦ false | some t ↦ column_eq t ref ]

unfoldable pub payment_by_system_ref : Text → System → Action Session (Option Payment)
payment_by_system_ref ref system =
    query payments λ p. text_eq p.system_payment_id ref && system_eq p.from_system system

unfoldable pub payment_by_id : ℕ → Action Session Payment
payment_by_id = get_by_key payments

unfoldable pub subscription_by_id : ℕ → Action Session Subscription
subscription_by_id = get_by_key subscriptions

-- `get_by_provider_id`, and `get_by_provider_id_for_update`, which also locks the row.
unfoldable pub subscription_by_provider_id : Option Text → Action Session Subscription
subscription_by_provider_id i =
    query_or_raise subscriptions λ s. column_eq s.gateway_subscription_id i

unfoldable pub subscription_by_system_ref : Text → System → Action Session (Option Subscription)
subscription_by_system_ref ref system =
    query subscriptions λ s. text_eq s.system_subscription_id ref && system_eq s.from_system system

unfoldable pub event_by_event_id : Text → Action Session (Option WebhookEvent)
event_by_event_id i = query events λ e. text_eq e.event_id i

unfoldable pub operation_by_dedupe_key : Text → Action Session (Option GatewayOperation)
operation_by_dedupe_key k = query operations λ o. text_eq o.dedupe_key k

unfoldable pub delivery_by_dedupe_key : Text → Action Session (Option Delivery)
delivery_by_dedupe_key k = query deliveries λ d. text_eq d.dedupe_key k

-- The entities of rows, built one after the other.
unfoldable pub all_built : {A : Type 0} → (A → Result A) → List A → Result (List A)
all_built build [] = ok []
all_built build (a ∷ l) =
    let rest = all_built build l in
    elim (build a) [ err e ↦ err e | ok b ↦ elim rest [ err e ↦ err e | ok bs ↦ ok (b ∷ bs) ] ]

-- `order_by(updated_at.asc())`: rows of one moment stay in their order.
unfoldable pub insert_by_update : Payment → List Payment → List Payment
insert_by_update p [] = p ∷ []
insert_by_update p (q ∷ l) =
    let rest = insert_by_update p l in
    if is_earlier q.updated_at p.updated_at then q ∷ rest else p ∷ q ∷ l

unfoldable pub ordered_by_update : List Payment → List Payment
ordered_by_update [] = []
ordered_by_update (p ∷ l) = insert_by_update p (ordered_by_update l)

unfoldable pub is_pending_checkout : GatewayProvider → Payment → Bool
is_pending_checkout gateway p =
    text_eq (provider_value p.gateway) (provider_value gateway)
    && payment_status_eq p.payment_status PaymentStatus.pending
    && movimentation_eq p.movimentation_type MovimentationType.default_payment
    && not (is_some p.subscription_id)
    && is_some p.checkout_link

-- A column that is compared with an identifier: no row has the value `None`.
abbrev pub has_subscription : Option ℕ → Option ℕ → Bool
has_subscription (some n) (some m) = m == n
has_subscription _ _ = false

-- `list_pending_checkouts`
unfoldable pub pending_checkouts : GatewayProvider → ℕ → Action Session (List Payment)
pending_checkouts gateway limit s =
    (statement
        >> lift (
            all_built payments.row.to_domain (
              take limit (ordered_by_update (select (is_pending_checkout gateway) s.db.payments)))))
      s

-- `list_by_status` of the operations
unfoldable pub operations_by_status :
    GatewayOperationStatus → Action Session (List GatewayOperation)
operations_by_status status s =
    (statement
        >> lift (
            all_built operations.row.to_domain
              (select (λ o. operation_status_eq o.status status) s.db.operations)))
      s

-- `order_by(paid_date.desc())`: the rows without a date come first.
unfoldable pub precedes : Option Datetime → Option Datetime → Bool
precedes none (some t) = true
precedes (some t) (some u) = is_earlier u t
precedes _ none = false

unfoldable pub insert_by_payment : Payment → List Payment → List Payment
insert_by_payment p [] = p ∷ []
insert_by_payment p (q ∷ l) =
    let rest = insert_by_payment p l in
    if precedes q.paid_date p.paid_date then q ∷ rest else p ∷ q ∷ l

unfoldable pub ordered_by_payment : List Payment → List Payment
ordered_by_payment [] = []
ordered_by_payment (p ∷ l) = insert_by_payment p (ordered_by_payment l)

-- `list_by_subscription_id`
unfoldable pub payments_of_subscription : Option ℕ → Action Session (List Payment)
payments_of_subscription sub_id s =
    (statement
        >> lift (
            all_built payments.row.to_domain (
              ordered_by_payment
                (select (λ p. has_subscription sub_id p.subscription_id) s.db.payments))))
      s
