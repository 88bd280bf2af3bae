-- ===== src/Workers/Sending/Stored.antt =====
-- The row of a delivery, as a session with a connection that holds reads and writes it.
use billing_core.Shared.{ℕ, ◌≡◌, refl, ap, sym, ◌∙◌, true, false, [], some}
use billing_core.Shared.Texts.{strip, is_empty}
use billing_core.Shared.Actions.{ok, lift, ◌>>=◌}
use billing_core.Domain.Delivery
use billing_core.Domain.Delivery.{Delivery}
use billing_core.Store.Tables.{save_row, update_row, find_key, replace_key}
use billing_core.Store.Tables.Uniqueness.{is_table, save_row-is_table}
use billing_core.Store.Tables.Found.{no_clash, find_key-replace_key}
use billing_core.Store.Laws.{deliveries-Lawful}
use billing_core.Store.Session.{Db, Session, statement, commit, save, get_by_key}
use billing_core.Store.Repositories.{deliveries}
use billing_core.Workers.Sending.{delivery_by_id}

-- A stored delivery whose texts are as the constructor makes them.
pub record IsClean (d : Delivery) : Type 0 where
  pub key : strip d.dedupe_key ≡ d.dedupe_key
  pub event : strip d.event_type ≡ d.event_type
  pub url : strip d.target_url ≡ d.target_url
  pub has_key : is_empty d.dedupe_key ≡ false
  pub has_event : is_empty d.event_type ≡ false
  pub has_url : is_empty d.target_url ≡ false

pub construct-IsClean : (d : Delivery) → IsClean d → Delivery.construct d ≡ ok d
unfolding Delivery.construct
construct-IsClean d c = rw (c.key, c.event, c.url, c.has_key, c.has_event, c.has_url) refl

-- The database has the delivery under its key, in a table that is in order.
pub record Holds (n : ℕ) (d : Delivery) (b : Db) : Type 0 where
  pub found : find_key deliveries.row n b.deliveries ≡ some d
  pub kept : is_table deliveries.row b.next_id b.deliveries ≡ true
  pub keyed : d.id ≡ some n
  pub clean : IsClean d

-- The fields that `save` writes to a stored delivery.
pub record SameRow (d e : Delivery) : Type 0 where
  pub row : deliveries.row.written d e ≡ e
  pub keyed : e.id ≡ d.id
  pub dedupe : e.dedupe_key ≡ d.dedupe_key
  pub event : e.event_type ≡ d.event_type
  pub url : e.target_url ≡ d.target_url

abbrev pub holding : Db → Db → Session
holding d c = record { db = d; committed = c; faults = [] }

pub get_by_key-Holds :
    (n : ℕ) (d : Delivery) (b c : Db)
    → Holds n d b
    → delivery_by_id n (holding b c) ≡ (ok d, holding b c)
unfolding delivery_by_id get_by_key statement ◌>>=◌ lift
get_by_key-Holds n d b c h = rw h.found (rw (construct-IsClean d h.clean) refl)

-- The database with the row of a key written anew.
abbrev pub rewritten : ℕ → Delivery → Db → Db
rewritten n e b = record b { deliveries = replace_key deliveries.row n e b.deliveries }

save_row-Holds :
    (n : ℕ) (d e : Delivery) (b : Db)
    → Holds n d b
    → SameRow d e
    → save_row deliveries.row e b.deliveries b.next_id
      ≡ ok (record {
        saved = e;
        rows = replace_key deliveries.row n e b.deliveries;
        next = b.next_id;
      })
unfolding save_row update_row
save_row-Holds n d e b h s = simp (
  s.keyed ∙ h.keyed,
  h.found,
  no_clash deliveries.row deliveries-Lawful b.next_id n b.deliveries h.kept h.found,
  s.row,
)

pub rewritten-Holds :
    (n : ℕ) (d e : Delivery) (b : Db) → Holds n d b → SameRow d e → Holds n e (rewritten n e b)
rewritten-Holds n d e b h s = record {
  found = find_key-replace_key deliveries.row n b.deliveries h.found (s.keyed ∙ h.keyed);
  kept =
      save_row-is_table deliveries.row deliveries-Lawful e b.deliveries b.next_id h.kept
        (save_row-Holds n d e b h s);
  keyed = s.keyed ∙ h.keyed;
  clean = record {
    key = ap strip s.dedupe ∙ h.clean.key ∙ sym s.dedupe;
    event = ap strip s.event ∙ h.clean.event ∙ sym s.event;
    url = ap strip s.url ∙ h.clean.url ∙ sym s.url;
    has_key = ap (λ t. is_empty t) s.dedupe ∙ h.clean.has_key;
    has_event = ap (λ t. is_empty t) s.event ∙ h.clean.has_event;
    has_url = ap (λ t. is_empty t) s.url ∙ h.clean.has_url;
  };
}

pub save-Holds :
    (n : ℕ) (d e : Delivery) (b c : Db)
    → Holds n d b
    → SameRow d e
    → save deliveries e (holding b c) ≡ (ok e, holding (rewritten n e b) c)
unfolding save statement ◌>>=◌
save-Holds n d e b c h s =
    rw (save_row-Holds n d e b h s)
      (rw (construct-IsClean e (rewritten-Holds n d e b h s).clean) refl)

pub commit-holding : (b c : Db) → commit (holding b c) ≡ (ok tt, holding b b)
unfolding commit statement
commit-holding b c = refl
