-- ===== src/Store/Session.antt =====
-- The session and the unit of work.
use billing_core.Shared.{ℕ, Bool, List, [], ◌∷◌, Option, none, some, if◌then◌else◌, select}
use billing_core.Shared.Actions.{database, not_found, Result, ok, err, Action, lift, ◌>>=◌, ◌>>◌}
use billing_core.Domain.Payment.{Payment}
use billing_core.Domain.Subscription.{Subscription}
use billing_core.Domain.Operation.{GatewayOperation}
use billing_core.Domain.Delivery.{Delivery}
use billing_core.Domain.Event.{WebhookEvent}
use billing_core.Store.Tables.{Row, Saved, save_row, find_key, one_or_none}

pub record Db : Type 0 where
  pub payments : List Payment
  pub subscriptions : List Subscription
  pub events : List WebhookEvent
  pub operations : List GatewayOperation
  pub deliveries : List Delivery
  pub next_id : ℕ

pub record Session : Type 0 where
  pub db : Db
  pub committed : Db
  pub faults : List Bool

-- A new session on a database whose connection holds.
abbrev pub opened : Db → Session
opened d = record { db = d; committed = d; faults = [] }

-- A table of the database: its rows, and the database with other rows in their place.
pub record Table (A : Type 0) : Type 0 where
  pub row : Row A
  pub rows : Db → List A
  pub with_rows : List A → Db → Db

-- One round trip to the database.
unfoldable pub statement : Action Session Unit
statement s = elim s.faults [
  | [] ↦ (ok tt, s)
  | fault ∷ rest ↦ (if fault then err database else ok tt, record s { faults = rest })
]

-- `commit`: on an exception the session is rolled back, and the exception goes on.
unfoldable pub commit : Action Session Unit
commit s =
    let (r, t) = statement s in
    elim r [
      | ok _ ↦ (ok tt, record t { committed = t.db })
      | err e ↦ (err e, record t { db = t.committed })
    ]

unfoldable pub rollback : Action Session Unit
rollback s = (ok tt, record s { db = s.committed })

module _ {A : Type 0} (t : Table A) where
  abbrev pub rebuilt : Option A → Result (Option A)
  rebuilt none = ok none
  rebuilt (some a) = elim (t.row.to_domain a) [ ok b ↦ ok (some b) | err e ↦ err e ]

  -- `select(Model).where(…)`, `one_or_none` and `to_domain`
  unfoldable pub query : (A → Bool) → Action Session (Option A)
  query p s =
      (do statement; row ← lift (one_or_none (select p (t.rows s.db))); lift (rebuilt row)) s

  -- The same, where no row is an error.
  unfoldable pub query_or_raise : (A → Bool) → Action Session A
  query_or_raise p = do
    found ← query p
    lift (elim found [ none ↦ err (not_found "Not Found") | some a ↦ ok a ])

  -- `session.get(Model, id)`, where no row is an error.
  unfoldable pub get_by_key : ℕ → Action Session A
  get_by_key n s =
      (statement
          >> lift (elim (find_key t.row n (t.rows s.db)) [
            | none ↦ err (not_found "Not Found")
            | some a ↦ t.row.to_domain a
          ]))
        s

  abbrev pub store_saved : Saved t.row → Session → Session
  store_saved w s = record s {
    db = let d = t.with_rows w.rows s.db in record d { next_id = w.next };
  }

  -- What was saved is in the database, and the entity is built of the row.
  abbrev pub written : Session → Result (Saved t.row) → Result A × Session
  written s (ok w) = (t.row.to_domain w.saved, store_saved w s)
  written s (err e) = (err e, s)

  -- `save`
  unfoldable pub save : A → Action Session A
  save a = statement >> λ s. written s (save_row t.row a (t.rows s.db) s.db.next_id)
