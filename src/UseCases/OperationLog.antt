-- ===== src/UseCases/OperationLog.antt =====
-- The record that a use case keeps of a call of a gateway, in the table of
-- app/infra/repo/gateway_operation_repo.py, and what writing it leaves.
pub mod Guard
use billing_core.Shared.{
  ℕ, ◌≡◌, Bool, true, false, not, ◌&&◌, ◌||◌, List, [], ◌∷◌, some, arith, select, any,
}
use billing_core.Shared.Texts.{Text, text_eq, strip, is_empty, is_truthy}
use billing_core.Shared.Actions.{ok}
use billing_core.Domain.Enums.{GatewayOperationStatus, operation_status_eq}
use billing_core.Domain.Operation
use billing_core.Domain.Operation.{GatewayOperation}
use billing_core.Store.Tables.{Saved, save_row, update_row, insert_row, has_key, replace_key}
use billing_core.Store.Tables.Uniqueness.{is_table, is_table-replace_key}
use billing_core.Store.Tables.Lookups.{find_key-select, select-replace_key}
use billing_core.Store.Laws.{operations-Lawful}
use billing_core.Store.Repositories.{operations}

abbrev pub has_dedupe_key : Text → GatewayOperation → Bool
has_dedupe_key k o = text_eq o.dedupe_key k

-- An operation that stands in the way of another call: it did not fail, or it failed after the
-- gateway had given a reference.
unfoldable pub is_open : GatewayOperation → Bool
is_open o =
    not (operation_status_eq o.status GatewayOperationStatus.failed)
    || is_truthy o.gateway_reference

-- The table has one operation of the key `k`, the one of the id `n`, and it stands in the way.
pub record Blocked (k : Text) (n : ℕ) (l : List GatewayOperation) : Type 0 where
  pub row : GatewayOperation
  pub table : ℕ
  pub only : select (has_dedupe_key k) l ≡ row ∷ []
  pub keyed : row.id ≡ some n
  pub named : text_eq row.dedupe_key k ≡ true
  pub has_name : is_empty (strip row.operation_name) ≡ false
  pub has_dedupe : is_empty (strip row.dedupe_key) ≡ false
  pub consistent : is_table operations.row table l ≡ true
  pub blocks : is_open row ≡ true

-- What `save` makes of the row of an operation.
abbrev pub rewritten : GatewayOperation → GatewayOperation → GatewayOperation
rewritten old o = record old {
  status = o.status;
  gateway_reference = o.gateway_reference;
  error_message = o.error_message;
  updated_at = o.updated_at;
}

is_open-rewritten : (old o : GatewayOperation) → is_open o ≡ true → is_open (rewritten old o) ≡ true
unfolding is_open
is_open-rewritten old o h = h

rows-save_row :
    (k : Text) (n next : ℕ) (l : List GatewayOperation) (o : GatewayOperation)
    {w : Saved operations.row} (b : Blocked k n l)
    → o.id ≡ some n
    → save_row operations.row o l next ≡ ok w
    → (w.rows ≡ replace_key operations.row n (rewritten b.row o) l)
      × (any (λ c. not (has_key operations.row n c) && text_eq b.row.dedupe_key c.dedupe_key) l
          ≡ false)
unfolding save_row update_row insert_row
rows-save_row k n next l o {w} b i h = ground (
  arith,
  find_key-select operations.row (has_dedupe_key k) b.table n l b.row b.consistent b.only b.keyed,
)

-- An operation that is in the way is written.
pub Blocked-save_row :
    (k : Text) (n next : ℕ) (l : List GatewayOperation) (o : GatewayOperation)
    {w : Saved operations.row}
    → Blocked k n l
    → o.id ≡ some n
    → is_open o ≡ true
    → save_row operations.row o l next ≡ ok w
    → Blocked k n w.rows
Blocked-save_row k n next l o b i open_now h =
    let (e, f) = rows-save_row k n next l o b i h in
    rw e (record {
      row = rewritten b.row o;
      table = b.table;
      only =
          select-replace_key operations.row (has_dedupe_key k) b.table n l b.row (rewritten b.row o)
            b.consistent b.only b.keyed b.named;
      keyed = b.keyed;
      named = b.named;
      has_name = b.has_name;
      has_dedupe = b.has_dedupe;
      consistent =
          is_table-replace_key operations.row operations-Lawful b.table n (rewritten b.row o) l
            b.keyed b.consistent f;
      blocks = is_open-rewritten b.row o open_now;
    })
