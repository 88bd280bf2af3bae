-- ===== src/Store/Examples.antt =====
-- A second payment that is stored.
use billing_core.Shared.{◌≡◌, refl, true, [], ◌∷◌, none, some, any}
use billing_core.Shared.Texts.{lit, strip, text_eq}
use billing_core.Shared.Actions.{ok, ◌>>=◌}
use billing_core.Domain.Payment
use billing_core.Domain.Payment.{Payment}
use billing_core.Domain.Examples.{open_payment}
use billing_core.Store.Tables.{save_row, insert_row}
use billing_core.Store.Tables.Uniqueness.{is_table}
use billing_core.Store.Session.{Db, Session, statement, save}
use billing_core.Store.Repositories.{payments}
use billing_core.Store.RoundTrip.{IsFound, steady, save-IsFound}

abbrev db : Db
db = record {
  payments = open_payment ∷ [];
  subscriptions = [];
  events = [];
  operations = [];
  deliveries = [];
  next_id = 10;
}

abbrev second : Payment
second = record open_payment {
  id = none;
  system_payment_id = lit "order-8";
  provider_payment_id = lit "pay_2";
}

abbrev stored : Payment
stored = record second { id = some 10 }

abbrev after : Session
after = steady (record db { payments = open_payment ∷ stored ∷ []; next_id = 11 }) db

db-is_table : is_table payments.row 10 (open_payment ∷ []) ≡ true
unfolding is_table any
db-is_table = refl

saved : save payments second (steady db db) ≡ (ok stored, after)
unfolding save save_row insert_row statement ◌>>=◌ any text_eq lit Payment.construct strip
saved = refl

save-IsFound_example : IsFound second stored after
save-IsFound_example = save-IsFound second db db db-is_table saved
