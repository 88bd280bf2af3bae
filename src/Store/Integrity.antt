-- ===== src/Store/Integrity.antt =====
-- The order of the tables, and what the actions of a session do to it.
use billing_core.Shared.{ℕ, ◌≤◌, ◌≡◌, refl, true, List, [], ◌∷◌, arith}
use billing_core.Shared.Actions.{Result, ok, err, Action}
use billing_core.Store.Tables.{Row, Saved, save_row, insert_row, update_row}
use billing_core.Store.Tables.Uniqueness.{Lawful, is_table, save_row-is_table}
use billing_core.Store.Laws.{
  payments-Lawful, subscriptions-Lawful, events-Lawful, operations-Lawful, deliveries-Lawful,
}
use billing_core.Store.Session.{Db, Session, Table, save, written}
use billing_core.Store.Repositories.{payments, subscriptions, events, operations, deliveries}
use billing_core.Store.Preserves.{Preserves, Preserves-save_of, preserves_rules}

-- Every table keeps its keys and its unique constraints.
pub record InOrder (d : Db) : Type 0 where
  pub payments_kept : is_table payments.row d.next_id d.payments ≡ true
  pub subscriptions_kept : is_table subscriptions.row d.next_id d.subscriptions ≡ true
  pub events_kept : is_table events.row d.next_id d.events ≡ true
  pub operations_kept : is_table operations.row d.next_id d.operations ≡ true
  pub deliveries_kept : is_table deliveries.row d.next_id d.deliveries ≡ true

-- The action keeps both databases in order, whether it raises or not.
abbrev pub Orderly : {A : Type 0} → Action Session A → Type 0
Orderly m = Preserves InOrder m

module _ {A : Type 0} (r : Row A) where
  -- More keys may be given out than there are.
  pub is_table-later :
      (next next' : ℕ) (l : List A)
      → next ≤ next'
      → is_table r next l ≡ true
      → is_table r next' l ≡ true
  unfolding is_table
  is_table-later next next' [] h k = refl
  is_table-later next next' (a ∷ l) h k = ground (arith, is_table-later next next' l h)

  pub save_row-next :
      (a : A) (l : List A) (next : ℕ) {w : Saved r} → save_row r a l next ≡ ok w → next ≤ w.next
  unfolding save_row insert_row update_row
  save_row-next a l next h = ground arith

-- A table of the database, whose rows may be written where they are in order.
pub record Stores {A : Type 0} (t : Table A) : Type 0 where
  pub lawful : Lawful t.row
  pub kept : (d : Db) → InOrder d → is_table t.row d.next_id (t.rows d) ≡ true
  pub stored :
      (d : Db) (l : List A) (n : ℕ)
      → InOrder d
      → d.next_id ≤ n
      → is_table t.row n l ≡ true
      → InOrder (let e = t.with_rows l d in record e { next_id = n })

module _ (d : Db) (n : ℕ) (g : InOrder d) (h : d.next_id ≤ n) where
  -- The tables that are not written.
  payments_later : is_table payments.row n d.payments ≡ true
  payments_later = is_table-later payments.row d.next_id n d.payments h g.payments_kept

  subscriptions_later : is_table subscriptions.row n d.subscriptions ≡ true
  subscriptions_later =
      is_table-later subscriptions.row d.next_id n d.subscriptions h g.subscriptions_kept

  events_later : is_table events.row n d.events ≡ true
  events_later = is_table-later events.row d.next_id n d.events h g.events_kept

  operations_later : is_table operations.row n d.operations ≡ true
  operations_later = is_table-later operations.row d.next_id n d.operations h g.operations_kept

  deliveries_later : is_table deliveries.row n d.deliveries ≡ true
  deliveries_later = is_table-later deliveries.row d.next_id n d.deliveries h g.deliveries_kept

pub Stores-payments : Stores payments
Stores-payments = record {
  lawful = payments-Lawful;
  kept = λ d g. g.payments_kept;
  stored = λ d l n g h k. record {
    payments_kept = k;
    subscriptions_kept = subscriptions_later d n g h;
    events_kept = events_later d n g h;
    operations_kept = operations_later d n g h;
    deliveries_kept = deliveries_later d n g h;
  };
}

pub Stores-subscriptions : Stores subscriptions
Stores-subscriptions = record {
  lawful = subscriptions-Lawful;
  kept = λ d g. g.subscriptions_kept;
  stored = λ d l n g h k. record {
    payments_kept = payments_later d n g h;
    subscriptions_kept = k;
    events_kept = events_later d n g h;
    operations_kept = operations_later d n g h;
    deliveries_kept = deliveries_later d n g h;
  };
}

pub Stores-events : Stores events
Stores-events = record {
  lawful = events-Lawful;
  kept = λ d g. g.events_kept;
  stored = λ d l n g h k. record {
    payments_kept = payments_later d n g h;
    subscriptions_kept = subscriptions_later d n g h;
    events_kept = k;
    operations_kept = operations_later d n g h;
    deliveries_kept = deliveries_later d n g h;
  };
}

pub Stores-operations : Stores operations
Stores-operations = record {
  lawful = operations-Lawful;
  kept = λ d g. g.operations_kept;
  stored = λ d l n g h k. record {
    payments_kept = payments_later d n g h;
    subscriptions_kept = subscriptions_later d n g h;
    events_kept = events_later d n g h;
    operations_kept = k;
    deliveries_kept = deliveries_later d n g h;
  };
}

pub Stores-deliveries : Stores deliveries
Stores-deliveries = record {
  lawful = deliveries-Lawful;
  kept = λ d g. g.deliveries_kept;
  stored = λ d l n g h k. record {
    payments_kept = payments_later d n g h;
    subscriptions_kept = subscriptions_later d n g h;
    events_kept = events_later d n g h;
    operations_kept = operations_later d n g h;
    deliveries_kept = k;
  };
}

module _ {A : Type 0} (t : Table A) where
  pub Orderly-save : (a : A) → Stores t → Orderly (save t a)
  Orderly-save a h =
      Preserves-save_of t a λ s g. go s g (save_row t.row a (t.rows s.db) s.db.next_id) refl
    where
      go :
          (s : Session)
          → InOrder s.db
          → (r : Result (Saved t.row)) → save_row t.row a (t.rows s.db) s.db.next_id ≡ r
          → InOrder (written t s r).1.db
      go s g (ok w) e =
          h.stored s.db w.rows w.next g (save_row-next t.row a (t.rows s.db) s.db.next_id e)
            (save_row-is_table t.row h.lawful a (t.rows s.db) s.db.next_id (h.kept s.db g) e)
      go s g (err x) e = g

pub ruleset orderly_rules = (
  preserves_rules, Orderly-save, Stores-payments, Stores-subscriptions, Stores-events,
  Stores-operations, Stores-deliveries,
)
