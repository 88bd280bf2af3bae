-- ===== src/UseCases/Webhook/Recorded.antt =====
-- The record of an event in the table of app/infra/repo/webhook_event_repo.py.
use billing_core.Shared.{
  ℕ, ◌≡◌, ap, ◌∙◌, Bool, true, false, List, [], ◌∷◌, Option, none, some, arith, select,
  if◌then◌else◌,
}
use billing_core.Shared.Texts.{Text, text_eq}
use billing_core.Shared.Actions.{
  Error, Result, ok, err, Action, continue, ◌>>=◌, pure, raise, cases,
}
use billing_core.Domain.Event
use billing_core.Domain.Event.{WebhookEvent, mark_as_processed}
use billing_core.Store.Tables.{Saved, save_row, insert_row, update_row}
use billing_core.Store.Tables.Uniqueness.{is_table, select-append}
use billing_core.Store.Tables.Lookups.{find_key-select, select-replace_key}
use billing_core.Store.Session.{Db, Session}
use billing_core.Store.Repositories.{events}
use billing_core.Store.Transactions.{Keeps}
use billing_core.Store.Outcomes.{bind-ok, commit-ok, save-ok}
use billing_core.UseCases.Webhook.Steps.{Answer, finish, mark_event_processed}

abbrev pub has_event_id : Text → WebhookEvent → Bool
has_event_id k e = text_eq e.event_id k

abbrev pub events_view : Db → Db → List WebhookEvent
events_view d c = d.events

-- What `execute` knows of the event when it turns to the branches: it is new, or it is the entity
-- of the one row that has its identifier.
pub data Ready (k : Text) (event : WebhookEvent) (l : List WebhookEvent) : Type 0 where
  fresh :
      event.id ≡ none
      → text_eq event.event_id k ≡ true
      → select (has_event_id k) l ≡ []
      → Ready k event l
  stored :
      (n : ℕ) (old : WebhookEvent)
      → select (has_event_id k) l ≡ old ∷ []
      → old.id ≡ some n
      → text_eq old.event_id k ≡ true
      → Event.construct old ≡ ok event
      → Ready k event l

-- The row of the identifier is one that the next lookup reads as processed.
pub record Recorded (k : Text) (d : Db) : Type 0 where
  pub row : WebhookEvent
  pub entity : WebhookEvent
  pub only : select (has_event_id k) d.events ≡ row ∷ []
  pub built : Event.construct row ≡ ok entity
  pub done : entity.processed ≡ true

mark_as_processed-processed : (e : WebhookEvent) → (mark_as_processed e).processed ≡ true
unfolding mark_as_processed
mark_as_processed-processed e = ground arith

mark_as_processed-id : (e : WebhookEvent) → (mark_as_processed e).id ≡ e.id
unfolding mark_as_processed
mark_as_processed-id e = ground arith

mark_as_processed-event_id : (e : WebhookEvent) → (mark_as_processed e).event_id ≡ e.event_id
unfolding mark_as_processed
mark_as_processed-event_id e = ground arith

construct-processed :
    (e : WebhookEvent) {b : WebhookEvent} → Event.construct e ≡ ok b → b.processed ≡ e.processed
unfolding Event.construct
construct-processed e h = ground arith

construct-id : (e : WebhookEvent) {b : WebhookEvent} → Event.construct e ≡ ok b → b.id ≡ e.id
unfolding Event.construct
construct-id e h = ground arith

-- A row that is written for the event, and read again.
recorded :
    (k : Text) (event : WebhookEvent) (l : List WebhookEvent) (table next : ℕ)
    {w : Saved events.row} {b : WebhookEvent}
    → is_table events.row table l ≡ true
    → Ready k event l
    → save_row events.row (mark_as_processed event) l next ≡ ok w
    → Event.construct w.saved ≡ ok b
    → (select (has_event_id k) w.rows ≡ w.saved ∷ []) × (b.processed ≡ true)
unfolding save_row insert_row update_row select
recorded k event l table next {w} {b} t (fresh i e h) s c = ground (
  arith,
  mark_as_processed-processed event,
  mark_as_processed-id event,
  mark_as_processed-event_id event,
  construct-processed w.saved {b = b} c,
  select-append (has_event_id k) l (record (mark_as_processed event) { id = some next } ∷ []),
)
recorded k event l table next {w} {b} t (stored n old h i e d) s c = ground (
  arith,
  mark_as_processed-processed event,
  mark_as_processed-id event,
  construct-processed w.saved {b = b} c,
  construct-id old d,
  find_key-select events.row (has_event_id k) table n l old t h i,
  select-replace_key events.row (has_event_id k) table n l old
      (record old { processed = (mark_as_processed event).processed }) t h i e,
)

-- An action that ends well has recorded the event.
pub record Records (k : Text) (event : WebhookEvent) {A : Type 0} (m : Action Session A)
    : Type 0 where
  pub at :
      (s : Session) (table : ℕ) {a : A}
      → is_table events.row table s.db.events ≡ true
      → Ready k event s.db.events
      → (m s).0 ≡ ok a
      → Recorded k (m s).1.committed

module _ (k : Text) (event : WebhookEvent) {A : Type 0} where
  pub Records-if :
      (b : Bool) (m n : Action Session A)
      → Records k event m
      → Records k event n
      → Records k event (if b then m else n)
  Records-if true m n p q = p
  Records-if false m n p q = q

  pub Records-raise : (e : Error) → Records k event (raise {A = A} e)
  unfolding raise
  Records-raise e = record { at = λ s table t r h. ground arith }

module _ (k : Text) (event : WebhookEvent) {A B : Type 0} where
  pub Records-cases :
      (o : Option A) (m : Action Session B) (f : A → Action Session B)
      → Records k event m
      → ((a : A) → Records k event (f a))
      → Records k event (cases o m f)
  unfolding cases
  Records-cases none m f p q = p
  Records-cases (some a) m f p q = q a

  pub Records-bind :
      (m : Action Session A) (f : A → Action Session B)
      → Keeps events_view m
      → ((a : A) → Records k event (f a))
      → Records k event (m >>= f)
  unfolding ◌>>=◌
  Records-bind m f q p = record { at = λ s table t r h. go s (m s).0 (m s).1 table (q.at s) t r h }
    where
      go :
          (s : Session) (r : Result A) (s' : Session) (table : ℕ) {b : B}
          → s'.db.events ≡ s.db.events
          → is_table events.row table s.db.events ≡ true
          → Ready k event s.db.events
          → (continue r f s').0 ≡ ok b
          → Recorded k (continue r f s').1.committed
      go s (ok a) s' table e t r h = (p a).at s' table (rw e t) (rw e r) h
      go s (err x) s' table e t r h = ground arith

pub Records-finish :
    (k : Text) (event : WebhookEvent) (a : Answer) → Records k event (finish event a)
unfolding finish mark_event_processed pure
Records-finish k event a = record {
  at = λ s table t r h.
      let marked = bind-ok h in
      let steps = bind-ok marked.first in
      let saved = save-ok events (mark_as_processed event) s steps.first in
      let (only, done) =
        recorded k event s.db.events table s.db.next_id t r saved.saves saved.builds in
      let e =
        ap (λ s. s.committed) (marked.ends ∙ steps.ends) ∙ commit-ok _ steps.next ∙ saved.leaves in
      record {
        row = saved.writes.saved;
        entity = steps.value;
        only = ap (λ d. select (has_event_id k) d.events) e ∙ only;
        built = saved.builds;
        done = done;
      };
}
