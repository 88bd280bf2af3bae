-- ===== src/Workers/Jobs/Lookups.antt =====
-- The lookups of app/infra/repo by a column that is unique, on the tables that the jobs leave.
use billing_core.Shared.{◌≡◌, ◌≢◌, ap, Bool, true, Option, none, some, List, select, arith}
use billing_core.Shared.Texts.{Text}
use billing_core.Shared.Actions.{
  Error, not_found, multiple_rows, Result, ok, err, lift, continue, ◌>>=◌,
}
use billing_core.Domain.Enums.{System}
use billing_core.Domain.Payment
use billing_core.Domain.Payment.{Payment}
use billing_core.Domain.Subscription
use billing_core.Domain.Operation
use billing_core.Domain.Delivery
use billing_core.Domain.Event
use billing_core.Store.Tables.{one_or_none}
use billing_core.Store.Tables.Uniqueness.{is_table}
use billing_core.Store.Tables.Lookups.{IsUnique, one_or_none_unique}
use billing_core.Store.Laws.{
  provider_id-IsUnique, payment_ref-IsUnique, gateway_id-IsUnique, subscription_ref-IsUnique,
  event_id-IsUnique, operation_key-IsUnique, delivery_key-IsUnique,
}
use billing_core.Store.Session.{
  Db, Session, Table, opened, statement, query, query_or_raise, rebuilt,
}
use billing_core.Store.Repositories.{
  payments, subscriptions, events, operations, deliveries, payment_by_provider_id,
  payment_by_system_ref, subscription_by_provider_id, subscription_by_system_ref, event_by_event_id,
  operation_by_dedupe_key, delivery_by_dedupe_key,
}
use billing_core.Store.Integrity.{InOrder}
use billing_core.Workers.World.{World}
use billing_core.Workers.Jobs.{Turn, run_turns}
use billing_core.Workers.Jobs.Integrity.{run_turns-InOrder}

-- No lookup by a unique column meets more rows than one.
pub record IsUnambiguous (d : Db) : Type 0 where
  pub payment_of_provider :
      (i : Option Text) → (payment_by_provider_id i (opened d)).0 ≢ err multiple_rows
  pub payment_of_system :
      (ref : Text) (system : System)
      → (payment_by_system_ref ref system (opened d)).0 ≢ err multiple_rows
  pub subscription_of_provider :
      (i : Option Text) → (subscription_by_provider_id i (opened d)).0 ≢ err multiple_rows
  pub subscription_of_system :
      (ref : Text) (system : System)
      → (subscription_by_system_ref ref system (opened d)).0 ≢ err multiple_rows
  pub event_of_id : (i : Text) → (event_by_event_id i (opened d)).0 ≢ err multiple_rows
  pub operation_of_key : (k : Text) → (operation_by_dedupe_key k (opened d)).0 ≢ err multiple_rows
  pub delivery_of_key : (k : Text) → (delivery_by_dedupe_key k (opened d)).0 ≢ err multiple_rows

still_raised :
    {A B : Type 0} {e : Error}
    → ◌≡◌ {A = Result A} (err e) (err multiple_rows)
    → ◌≡◌ {A = Result B} (err e) (err multiple_rows)
still_raised h = ap (λ e. err e) (ground (arith, h))

module _ {A : Type 0} (t : Table A) (builds : (a : A) → t.row.to_domain a ≢ err multiple_rows)
    (p : A → Bool) (unique : IsUnique t.row p) (d : Db)
    (kept : is_table t.row d.next_id (t.rows d) ≡ true) where
  query_unique : (query t p (opened d)).0 ≢ err multiple_rows
  unfolding query statement ◌>>=◌ lift
  query_unique =
      go (one_or_none (select p (t.rows d))) (one_or_none_unique t.row p d.next_id _ unique kept)
    where
      go :
          (r : Result (Option A))
          → r ≢ err multiple_rows
          → ((lift {S = Session} r >>= λ row. lift (rebuilt t row)) (opened d)).0
            ≢ err multiple_rows
      go (err e) h q = h (still_raised q)
      go (ok none) h q = ground arith
      go (ok (some a)) h q = built (t.row.to_domain a) (builds a) q
        where
          built :
              (r : Result A)
              → r ≢ err multiple_rows
              → elim r [ ok b ↦ ok (some b) | err e ↦ err e ] ≢ err multiple_rows
          built (ok b) h q = ground arith
          built (err e) h q = h (still_raised q)

  query_or_raise_unique : (query_or_raise t p (opened d)).0 ≢ err multiple_rows
  unfolding query_or_raise ◌>>=◌ lift
  query_or_raise_unique = go (query t p (opened d)).0 (query t p (opened d)).1 query_unique
    where
      go :
          (r : Result (Option A)) (s : Session)
          → r ≢ err multiple_rows
          → (continue r
              (λ found. lift (elim found [ none ↦ err (not_found "Not Found") | some a ↦ ok a ]))
              s).0
            ≢ err multiple_rows
      go (err e) s h q = h (still_raised q)
      go (ok none) s h q = ground (arith, q)
      go (ok (some a)) s h q = ground (arith, q)

payment-builds : (p : Payment) → payments.row.to_domain p ≢ err multiple_rows
unfolding Payment.construct
payment-builds p = ground arith

subscription-builds :
    (s : Subscription.Subscription) → subscriptions.row.to_domain s ≢ err multiple_rows
unfolding Subscription.construct
subscription-builds s = ground arith

event-builds : (e : Event.WebhookEvent) → events.row.to_domain e ≢ err multiple_rows
unfolding Event.construct
event-builds e = ground arith

operation-builds : (o : Operation.GatewayOperation) → operations.row.to_domain o ≢ err multiple_rows
unfolding Operation.construct
operation-builds o = ground arith

delivery-builds : (d : Delivery.Delivery) → deliveries.row.to_domain d ≢ err multiple_rows
unfolding Delivery.construct
delivery-builds d = ground arith

InOrder-IsUnambiguous : (d : Db) → InOrder d → IsUnambiguous d
unfolding payment_by_provider_id payment_by_system_ref subscription_by_provider_id
    subscription_by_system_ref event_by_event_id operation_by_dedupe_key delivery_by_dedupe_key
InOrder-IsUnambiguous d g = record {
  payment_of_provider =
      λ i. query_unique payments payment-builds _ (provider_id-IsUnique i) d g.payments_kept;
  payment_of_system = λ ref system.
      query_unique payments payment-builds _ (payment_ref-IsUnique ref system) d g.payments_kept;
  subscription_of_provider = λ i.
      query_or_raise_unique subscriptions subscription-builds _ (gateway_id-IsUnique i) d
        g.subscriptions_kept;
  subscription_of_system = λ ref system.
      query_unique subscriptions subscription-builds _ (subscription_ref-IsUnique ref system) d
        g.subscriptions_kept;
  event_of_id = λ i. query_unique events event-builds _ (event_id-IsUnique i) d g.events_kept;
  operation_of_key = λ k.
      query_unique operations operation-builds _ (operation_key-IsUnique k) d g.operations_kept;
  delivery_of_key =
      λ k. query_unique deliveries delivery-builds _ (delivery_key-IsUnique k) d g.deliveries_kept;
}

-- After any row of jobs on a database that keeps its constraints, whichever jobs run, whatever
-- the gateways and the systems answer and whichever statements of the database fail, no lookup
-- of the repositories by a unique column meets more rows than one: of a payment or a
-- subscription by the identifier of the gateway or of the system, of an event by its identifier,
-- and of an operation or a delivery by its key. The database refuses the rows that break a
-- constraint.
pub run_turns-IsUnambiguous :
    (l : List Turn) (w : World) → InOrder w.db → IsUnambiguous (run_turns l w).db
run_turns-IsUnambiguous l w g = InOrder-IsUnambiguous (run_turns l w).db (run_turns-InOrder l w g)
