-- ===== src/UseCases/Checkout/Outcome.antt =====
-- What `CreateCheckout.execute` leaves behind, from the lookup of the operation on.
use billing_core.Shared.{
  ℕ, ◌≡◌, refl, ap, sym, subst, ◌∙◌, true, false, ◌⊎◌, inl, inr, List, [], ◌∷◌, ◌++◌, Option, none,
  some, arith, select,
}
use billing_core.Shared.Texts.{Text, text_eq_iff, strip, is_empty}
use billing_core.Shared.Actions.{Result, ok, err, Action, continue, pure, lift, ◌>>=◌, ◌>>◌}
use billing_core.Shared.Json.{Json}
use billing_core.Domain.Enums.{GatewayProvider, System, GatewayOperationStatus}
use billing_core.Domain.Calendar.{Datetime}
use billing_core.Domain.Payment.{Payment}
use billing_core.Domain.Operation
use billing_core.Domain.Operation.{GatewayOperation, new_operation}
use billing_core.Store.Tables.{Saved, save_row, insert_row}
use billing_core.Store.Tables.Uniqueness.{is_table, select-append, save_row-is_table}
use billing_core.Store.Laws.{operations-Lawful}
use billing_core.Store.Session.{Session}
use billing_core.Store.Repositories.{operations, operation_by_dedupe_key}
use billing_core.Store.Transactions.{Keeps-query}
use billing_core.Store.Outcomes.{
  bind-ok, commit-ok, commit-db, save-ok, Found, absent, present, query-ok,
}
use billing_core.UseCases.OperationLog.{has_dedupe_key, is_open, Blocked}
use billing_core.UseCases.OperationLog.Guard.{Guarded}
use billing_core.UseCases.Checkout.{
  CheckoutRequest, CheckoutResponse, CheckoutEnv, Gateway, operation_dedupe_key, call_of,
  check_operation,
}
use billing_core.UseCases.Checkout.Execute.{open_operation, settle, open_checkout}
use billing_core.UseCases.Checkout.Log.{may_have_made, Maintains-settle}

-- The run does not ask the gateway: any other gateway gives the same.
pub record IsUnasked (run : Gateway → Result CheckoutResponse × Session) (gateway : Gateway)
    : Type 0 where
  pub at : (other : Gateway) → run other ≡ run gateway

-- A new operation, as it is made.
record IsNew (k : Text) (o : GatewayOperation) : Type 0 where
  pub unsaved : o.id ≡ none
  pub keyed : o.dedupe_key ≡ strip k
  pub waits : o.status ≡ GatewayOperationStatus.pending

new_operation-IsNew :
    (name k : Text) (provider : GatewayProvider) (system : System) (payload : Json) (now : Datetime)
    {o : GatewayOperation}
    → new_operation name k provider system payload now ≡ ok o
    → IsNew k o
unfolding new_operation
new_operation-IsNew name k provider system payload now h = record {
  unsaved = ground arith;
  keyed = ground arith;
  waits = ground arith;
}

construct-id :
    (r : GatewayOperation) {o : GatewayOperation} → Operation.construct r ≡ ok o → o.id ≡ r.id
unfolding Operation.construct
construct-id r h = ground arith

construct-named :
    (r : GatewayOperation) {o : GatewayOperation}
    → Operation.construct r ≡ ok o
    → is_empty (strip r.operation_name) ≡ false
unfolding Operation.construct
construct-named r h = ground arith

construct-keyed :
    (r : GatewayOperation) {o : GatewayOperation}
    → Operation.construct r ≡ ok o
    → is_empty (strip r.dedupe_key) ≡ false
unfolding Operation.construct
construct-keyed r h = ground arith

-- What a new row is.
inserted :
    (o : GatewayOperation) (l : List GatewayOperation) (next : ℕ) {w : Saved operations.row}
    → o.id ≡ none
    → save_row operations.row o l next ≡ ok w
    → (w.saved ≡ record o { id = some next }) × (w.rows ≡ l ++ (w.saved ∷ []))
unfolding save_row insert_row
inserted o l next i h = ground arith

-- A new operation, in the table.
Blocked-inserted :
    (k : Text) (o : GatewayOperation) (l : List GatewayOperation) (next : ℕ)
    {w : Saved operations.row} {b : GatewayOperation}
    → strip k ≡ k
    → is_table operations.row next l ≡ true
    → select (has_dedupe_key k) l ≡ []
    → IsNew k o
    → save_row operations.row o l next ≡ ok w
    → Operation.construct w.saved ≡ ok b
    → Blocked k next w.rows
unfolding select is_open
Blocked-inserted k o l next {w} trimmed t e new h c =
    let (saved, rows) = inserted o l next new.unsaved h in
    let key = ap (λ r. r.dedupe_key) saved ∙ new.keyed ∙ trimmed in
    let named = (text_eq_iff w.saved.dedupe_key k).1 key in
    record {
      row = w.saved;
      table = w.next;
      only =
          ap (select (has_dedupe_key k)) rows
          ∙ select-append (has_dedupe_key k) l (w.saved ∷ [])
          ∙ ground arith;
      keyed = ap (λ r. r.id) saved;
      named = named;
      has_name = construct-named w.saved c;
      has_dedupe = construct-keyed w.saved c;
      consistent = save_row-is_table operations.row operations-Lawful o l next t h;
      blocks = ground arith;
    }

module _ (env : CheckoutEnv) (provider : GatewayProvider) (request : CheckoutRequest)
    (renewed : Option Payment) where
  abbrev pub key : Text
  key = operation_dedupe_key request renewed

  -- The operation is committed before the gateway is asked.
  open_operation-Guarded :
      (s : Session) {o : GatewayOperation}
      → strip key ≡ key
      → is_table operations.row s.db.next_id s.db.operations ≡ true
      → select (has_dedupe_key key) s.db.operations ≡ []
      → (open_operation env provider request renewed none s).0 ≡ ok o
      → (o.id ≡ some s.db.next_id)
        × Guarded key s.db.next_id (open_operation env provider request renewed none s).1
  unfolding open_operation lift pure
  open_operation-Guarded s {o} trimmed t e h =
      let made = bind-ok h in
      let stored = bind-ok made.next in
      let done = bind-ok stored.next in
      let saved = save-ok operations made.value s stored.first in
      let blocked =
        Blocked-inserted key made.value s.db.operations s.db.next_id trimmed t e
          (new_operation-IsNew _ _ _ _ _ _ made.first) saved.saves saved.builds in
      let row_id =
        ap (λ r. r.id)
          (inserted made.value s.db.operations s.db.next_id
            (new_operation-IsNew _ _ _ _ _ _ made.first).unsaved saved.saves).0 in
      let ends = made.ends ∙ stored.ends ∙ done.ends in
      let db = ap (λ t. t.db) ends ∙ commit-db _ done.first ∙ saved.leaves in
      let committed = ap (λ t. t.committed) ends ∙ commit-ok _ done.first ∙ saved.leaves in
      (
        same done.next ∙ construct-id _ saved.builds ∙ row_id,
        record {
          working = subst (λ d. Blocked key s.db.next_id d.operations) (sym db) blocked;
          committed = subst (λ d. Blocked key s.db.next_id d.operations) (sym committed) blocked;
        },
      )
    where
      same : {a b : GatewayOperation} → ok a ≡ ok b → b.id ≡ a.id
      same h = ground arith

  -- The gateway is not asked: any other gives the same. Or the operation stays in the way.
  abbrev pub Logged : (Gateway → Action Session CheckoutResponse) → Gateway → Session → Type 0
  Logged run gateway s =
      IsUnasked (λ g. run g s) gateway
      ⊎ ((n : ℕ) × Blocked key n (run gateway s).1.committed.operations)

  pub Logged-bind :
      {A : Type 0} (m : Action Session A) (f : Gateway → A → Action Session CheckoutResponse)
      (gateway : Gateway) (s : Session)
      → ((a : A) → (m s).0 ≡ ok a → Logged (λ g. f g a) gateway (m s).1)
      → Logged (λ g. m >>= f g) gateway s
  unfolding ◌>>=◌
  Logged-bind {A = A} m f gateway s h = go (m s).0 h
    where
      go :
          (r : Result A)
          → ((a : A) → r ≡ ok a → Logged (λ g. f g a) gateway (m s).1)
          → Logged (λ g _. continue r (f g) (m s).1) gateway s
      go (ok a) h = h a refl
      go (err e) h = inl (record { at = λ other. refl })

  -- What follows the lookup of the operation, which found none.
  checked-Logged :
      (gateway : Gateway) (s : Session) (found : Option GatewayOperation)
      → strip key ≡ key
      → is_table operations.row s.db.next_id s.db.operations ≡ true
      → select (has_dedupe_key key) s.db.operations ≡ []
      → may_have_made (gateway provider (call_of request renewed)) ≡ true
      → Found operations (has_dedupe_key key) s.db found
      → Logged
          (λ g. do
            lift (check_operation found)
            operation ← open_operation env provider request renewed found
            settle env provider request renewed operation (g provider (call_of request renewed)))
          gateway
          s
  unfolding check_operation lift
  checked-Logged gateway s none trimmed t e may f = Logged-bind (lift (ok tt)) _ gateway s λ u h.
      Logged-bind (open_operation env provider request renewed none) _ gateway s λ o made.
        let (i, guarded) = open_operation-Guarded s trimmed t e made in
        inr (
          s.db.next_id,
          ((Maintains-settle key s.db.next_id env provider request renewed o _ i may).at _
              guarded).committed,
        )
  checked-Logged gateway s (some o) trimmed t e may (absent l n) = ground arith
  checked-Logged gateway s (some o) trimmed t e may (present row b l d n) = ground arith

  pub open_checkout-Logged :
      (gateway : Gateway) (s : Session)
      → strip key ≡ key
      → is_table operations.row s.db.next_id s.db.operations ≡ true
      → select (has_dedupe_key key) s.db.operations ≡ []
      → may_have_made (gateway provider (call_of request renewed)) ≡ true
      → Logged (λ g. open_checkout env provider request g renewed) gateway s
  unfolding open_checkout operation_by_dedupe_key
  open_checkout-Logged gateway s trimmed t e may = Logged-bind _ _ gateway s λ found f.
      let kept = (Keeps-query (λ d c. d) operations (has_dedupe_key key)).at s in
      checked-Logged gateway _ found trimmed (rw kept t) (rw kept e) may
        (rw kept (query-ok operations (has_dedupe_key key) s f))
