-- ===== src/UseCases/Webhook/Repeat.antt =====
-- A notification that comes again: `ProcessWebhookService.execute` twice.
use billing_core.Shared.{
  ℕ, ◌≡◌, refl, ap, sym, subst, ◌∙◌, Bool, true, false, ◌||◌, Option, none, some, arith,
  if◌then◌else◌,
}
use billing_core.Shared.Texts.{Text, strip, text_eq_iff, is_truthy}
use billing_core.Shared.Actions.{ok, Action, lift, pure, ◌>>=◌}
use billing_core.Domain.Enums.{GatewayProvider}
use billing_core.Domain.Event.{WebhookEvent, new_event}
use billing_core.Store.Tables.Uniqueness.{is_table}
use billing_core.Store.Tables.Lookups.{select-key, select-passes}
use billing_core.Store.Session.{Db, Session, opened}
use billing_core.Store.Repositories.{events, event_by_event_id}
use billing_core.Store.Transactions.{committed_view}
use billing_core.Store.Outcomes.{bind-ok, Found, absent, present, query-ok, query-opened}
use billing_core.UseCases.Webhook.Payload.{WebhookPayload, event_id_for}
use billing_core.UseCases.Webhook.Steps.{Env, Answer}
use billing_core.UseCases.Webhook.Execute.{is_processed, event_for, dispatch, execute}
use billing_core.UseCases.Webhook.Frames.{Keeps-event_by_event_id, Keeps-event_for}
use billing_core.UseCases.Webhook.Recorded.{
  Ready, fresh, stored, Recorded, events_view, has_event_id,
}
use billing_core.UseCases.Webhook.Idempotence.{
  Records-dispatch, Ignores-payments, Ignores-subscriptions,
}

new_event-fresh :
    (env : Env) (k : Text) (provider : GatewayProvider) (payload : WebhookPayload) (s : Session)
    {event : WebhookEvent}
    → strip k ≡ k
    → (event_for env k provider payload none s).0 ≡ ok event
    → (event.id ≡ none) × (event.event_id ≡ k)
unfolding event_for lift new_event
new_event-fresh env k provider payload s t h = ground arith

-- The event that `execute` hands to the branches.
event_for-Ready :
    (env : Env) (k : Text) (provider : GatewayProvider) (payload : WebhookPayload) (s s' : Session)
    (table : ℕ) (found : Option WebhookEvent) {event : WebhookEvent}
    → strip k ≡ k
    → is_table events.row table s.db.events ≡ true
    → Found events (has_event_id k) s.db found
    → (event_for env k provider payload found s').0 ≡ ok event
    → Ready k event s.db.events
unfolding event_for pure
event_for-Ready env k provider payload s s' table none t c (absent e n) h =
    let (i, j) = new_event-fresh env k provider payload s' t h in fresh i ((text_eq_iff _ k).1 j) e
event_for-Ready env k provider payload s s' table none t c (present row b e d n) h = ground arith
event_for-Ready env k provider payload s s' table (some found) t c (absent e n) h = ground arith
event_for-Ready env k provider payload s s' table (some found) t c (present row b e d n) h =
    let (n', i) = select-key events.row (has_event_id k) table s.db.events row c e in
    stored n' row e i (select-passes (has_event_id k) s.db.events e) (ground arith)

module _ (env : Env) (provider : GatewayProvider) (payload : WebhookPayload) (k : Text) where
  -- `execute`, from the lookup of the event on.
  abbrev looked_up : Action Session Answer
  looked_up = do
    found ← event_by_event_id k
    (if is_processed env found
        then pure none
        else (do event ← event_for env k provider payload found; dispatch env event payload))

  module _ (named : (is_truthy payload.details.id || is_truthy payload.details.subscription) ≡ true)
      (trimmed : strip k ≡ k) where
    processed-Recorded :
        (s : Session) (found : Option WebhookEvent)
        → is_processed env found ≡ true
        → Found events (has_event_id k) s.db found
        → Recorded k s.db
    processed-Recorded s found h (absent e n) = ground arith
    processed-Recorded s found h (present row b e d n) = record {
      row = row;
      entity = b;
      only = e;
      built = d;
      done = ground arith;
    }

    looked_up-Recorded :
        (s : Session) (table : ℕ) {a : Answer}
        → is_table events.row table s.db.events ≡ true
        → s.db ≡ s.committed
        → (looked_up s).0 ≡ ok a
        → Recorded k (looked_up s).1.committed
    unfolding event_by_event_id pure
    looked_up-Recorded s table {a} c fresh_session h =
        let found = bind-ok h in
        go found.value (query-ok events (has_event_id k) s found.first)
          (is_processed env found.value) refl found.next (ap (λ t. t.committed) found.ends)
      where
        after : Session
        after = (event_by_event_id k s).1

        events_kept : after.db.events ≡ s.db.events
        events_kept = (Keeps-event_by_event_id events_view k).at s

        go :
            (found : Option WebhookEvent)
            → Found events (has_event_id k) s.db found
            → (b : Bool) → is_processed env found ≡ b
            → ((if b then pure none else (do
              event ← event_for env k provider payload found
              dispatch env event payload))
                after).0
              ≡ ok a
            → (looked_up s).1.committed
              ≡ ((if b then pure none else (do
                event ← event_for env k provider payload found
                dispatch env event payload))
                  after).1.committed
            → Recorded k (looked_up s).1.committed
        go found f true b h e =
            subst (Recorded k)
              (fresh_session ∙ sym (e ∙ (Keeps-event_by_event_id committed_view k).at s))
              (processed-Recorded s found b f)
        go found f false b h e =
            let event = bind-ok h in
            let kept =
              (Keeps-event_for events_view Ignores-payments Ignores-subscriptions env k provider
                  payload found).at
                after in
            subst (Recorded k) (sym (e ∙ ap (λ t. t.committed) event.ends)) (
              (Records-dispatch k env event.value payload named).at
                (event_for env k provider payload found after).1 table (rw (kept ∙ events_kept) c)
                (rw (kept ∙ events_kept) (
                  event_for-Ready env k provider payload s after table found trimmed c f
                    event.first))
                event.next)

-- In a session that starts, on a table of events that keeps its constraints, a notification that
-- names a payment or a subscription, whose identifier has no white space at its ends, and that
-- is processed without an error has its event in the committed database: one row, which the next
-- lookup reads as processed.
pub execute-Recorded :
    (env : Env) (provider : GatewayProvider) (payload : WebhookPayload) (k : Text) (s : Session)
    {answer : Answer}
    → (is_truthy payload.details.id || is_truthy payload.details.subscription) ≡ true
    → event_id_for payload provider ≡ ok k
    → strip k ≡ k
    → is_table events.row s.db.next_id s.db.events ≡ true
    → s.db ≡ s.committed
    → (execute env provider payload s).0 ≡ ok answer
    → Recorded k (execute env provider payload s).1.committed
unfolding execute ◌>>=◌ lift
execute-Recorded env provider payload k s named identified trimmed table begins h =
    rw (identified) (
      looked_up-Recorded env provider payload k named trimmed s s.db.next_id table begins
        (rw identified at h))

-- A notification whose event is recorded as processed is answered with nothing, and changes
-- nothing, whatever the time is and whatever else it says.
Recorded-ignored :
    (env : Env) (provider : GatewayProvider) (payload : WebhookPayload) (k : Text) (d : Db)
    → event_id_for payload provider ≡ ok k
    → Recorded k d
    → execute env provider payload (opened d) ≡ (ok none, opened d)
unfolding execute ◌>>=◌ lift event_by_event_id pure
Recorded-ignored env provider payload k d identified r =
    rw identified
      (rw (query-opened events (has_event_id k) d r.row r.entity r.only r.built) (rw r.done refl))

-- In a session that starts, on a table of events that keeps its constraints, a notification that
-- names a payment or a subscription, whose identifier has no white space at its ends, and that
-- is processed without an error is answered with nothing when it comes again, at any time, and
-- changes nothing of the database.
pub execute-twice :
    (env later : Env) (provider : GatewayProvider) (payload : WebhookPayload) (k : Text)
    (s : Session) {answer : Answer}
    → (is_truthy payload.details.id || is_truthy payload.details.subscription) ≡ true
    → event_id_for payload provider ≡ ok k
    → strip k ≡ k
    → is_table events.row s.db.next_id s.db.events ≡ true
    → s.db ≡ s.committed
    → (execute env provider payload s).0 ≡ ok answer
    → execute later provider payload (opened (execute env provider payload s).1.committed)
      ≡ (ok none, opened (execute env provider payload s).1.committed)
execute-twice env later provider payload k s named identified trimmed table begins h =
    Recorded-ignored later provider payload k _ identified
      (execute-Recorded env provider payload k s named identified trimmed table begins h)
