-- ===== src/UseCases/Checkout/Repeat.antt =====
-- A checkout that is asked for again.
use billing_core.Shared.{
  ℕ, ◌≡◌, ◌≢◌, refl, Bool, true, false, not, ◌⊎◌, inl, List, [], Option, none, some, arith, select,
  if◌then◌else◌,
}
use billing_core.Shared.Texts.{Text, strip}
use billing_core.Shared.Actions.{Error, Result, ok, err, lift, ◌>>=◌}
use billing_core.Domain.Enums.{System, GatewayProvider}
use billing_core.Domain.Payment.{Payment}
use billing_core.Domain.Operation
use billing_core.Domain.Operation.{GatewayOperation}
use billing_core.Store.Tables.Uniqueness.{is_table}
use billing_core.Store.Session.{Db, Session, opened}
use billing_core.Store.Repositories.{
  payments, operations, payment_by_system_ref, operation_by_dedupe_key,
}
use billing_core.Store.Transactions.{Keeps, Keeps-query}
use billing_core.Store.Outcomes.{query-opened, query-opened_state}
use billing_core.UseCases.OperationLog.{has_dedupe_key, is_open, Blocked}
use billing_core.UseCases.Checkout.{
  CheckoutRequest, CheckoutResponse, CheckoutEnv, Gateway, is_renewal, operation_dedupe_key,
  call_of, check_operation,
}
use billing_core.UseCases.Checkout.Answers.{
  Answers, absent-Answers, renewed-Answers, response_of-Answers,
}
use billing_core.UseCases.Checkout.Execute.{respond, open_checkout, proceed, execute}
use billing_core.UseCases.Checkout.Log.{may_have_made}
use billing_core.UseCases.Checkout.Outcome.{IsUnasked, Logged, Logged-bind, open_checkout-Logged}

-- The payment, if its checkout is to be renewed.
unfoldable pub renewed_of : Option Payment → Option Payment
renewed_of none = none
renewed_of (some p) = if is_renewal p then some p else none

Keeps-payment_by_system_ref :
    (ref : Text) (system : System) → Keeps (λ d c. d) (payment_by_system_ref ref system)
unfolding payment_by_system_ref
Keeps-payment_by_system_ref ref system = Keeps-query (λ d c. d) payments _

module _ (env : CheckoutEnv) (provider : GatewayProvider) (request : CheckoutRequest) where
  proceed-Logged :
      (gateway : Gateway) (s : Session) (existing : Option Payment)
      → strip (operation_dedupe_key request (renewed_of existing))
        ≡ operation_dedupe_key request (renewed_of existing)
      → is_table operations.row s.db.next_id s.db.operations ≡ true
      → select (has_dedupe_key (operation_dedupe_key request (renewed_of existing))) s.db.operations
        ≡ []
      → may_have_made (gateway provider (call_of request (renewed_of existing))) ≡ true
      → Logged env provider request
          (renewed_of existing)
          (λ g. proceed env provider request g existing)
          gateway
          s
  unfolding proceed renewed_of
  proceed-Logged gateway s none trimmed t e may =
      open_checkout-Logged env provider request none gateway s trimmed t e may
  proceed-Logged gateway s (some p) trimmed t e may = go (is_renewal p) trimmed e may
    where
      go :
          (b : Bool)
          → strip (operation_dedupe_key request (if b then some p else none))
            ≡ operation_dedupe_key request (if b then some p else none)
          → select
              (has_dedupe_key (operation_dedupe_key request (if b then some p else none)))
              s.db.operations
            ≡ []
          → may_have_made (gateway provider (call_of request (if b then some p else none))) ≡ true
          → Logged env provider request
              (if b then some p else none)
              (λ g.
                if not b
                then lift (respond env provider request p)
                else open_checkout env provider request g (some p))
              gateway
              s
      go true trimmed e may =
          open_checkout-Logged env provider request (some p) gateway s trimmed t e may
      go false trimmed e may = inl (record { at = λ other. refl })

-- In a session on a table of operations that keeps its constraints, a request that has no
-- operation yet, and whose key has no white space at its ends, does not ask the gateway, or
-- leaves its operation in the committed database, in the way of another call, if the gateway
-- made a checkout or it is not known whether it did: whatever of the database fails.
pub execute-Logged :
    (env : CheckoutEnv) (provider : GatewayProvider) (request : CheckoutRequest) (gateway : Gateway)
    (s : Session) (existing : Option Payment)
    → (payment_by_system_ref request.system_payment_id request.system s).0 ≡ ok existing
    → strip (operation_dedupe_key request (renewed_of existing))
      ≡ operation_dedupe_key request (renewed_of existing)
    → is_table operations.row s.db.next_id s.db.operations ≡ true
    → select (has_dedupe_key (operation_dedupe_key request (renewed_of existing))) s.db.operations
      ≡ []
    → may_have_made (gateway provider (call_of request (renewed_of existing))) ≡ true
    → IsUnasked (λ g. execute env provider request g s) gateway
      ⊎ ((n : ℕ) × Blocked
            (operation_dedupe_key request (renewed_of existing))
            n
            (execute env provider request gateway s).1.committed.operations)
unfolding execute
execute-Logged env provider request gateway s existing found trimmed t e may =
    Logged-bind env provider request (renewed_of existing) _ _ gateway s λ a f. rw (same f found) (
      let kept = (Keeps-payment_by_system_ref request.system_payment_id request.system).at s in
      proceed-Logged env provider request gateway _ existing trimmed (rw kept t) (rw kept e) may)
  where
    same : {a b : Option Payment} {r : Result (Option Payment)} → r ≡ ok a → r ≡ ok b → a ≡ b
    same h k = ground arith

-- An operation in the way is one that the guards refuse.
check-is_open : (o : GatewayOperation) → is_open o ≡ true → check_operation (some o) ≢ ok tt
unfolding is_open check_operation
check-is_open o h = ground arith

-- The entity of a row that is in the way is in the way too.
Blocked-entity :
    (k : Text) (n : ℕ) (l : List GatewayOperation) (b : Blocked k n l)
    → (o : GatewayOperation) × (Operation.construct b.row ≡ ok o) × (is_open o ≡ true)
unfolding Operation.construct is_open
Blocked-entity k n l b =
    let o = record b.row {
      operation_name = strip b.row.operation_name;
      dedupe_key = strip b.row.dedupe_key;
    } in
    (o, rw b.has_name (rw b.has_dedupe refl), b.blocks)

check-refuses :
    (o : GatewayOperation) → is_open o ≡ true → (e : Error) × (check_operation (some o) ≡ err e)
check-refuses o h = go (check_operation (some o)) refl (check-is_open o h)
  where
    go :
        (r : Result (Unit {0}))
        → check_operation (some o) ≡ r
        → r ≢ ok tt
        → (e : Error) × (check_operation (some o) ≡ err e)
    go (ok tt) q h = ground arith
    go (err e) q h = (e, q)

module _ (env : CheckoutEnv) (provider : GatewayProvider) (request : CheckoutRequest) where
  refused :
      (renewed : Option Payment) (n : ℕ) (d : Db)
      → Blocked (operation_dedupe_key request renewed) n d.operations
      → (e : Error) × ((gateway : Gateway)
          → open_checkout env provider request gateway renewed (opened d) ≡ (err e, opened d))
  unfolding open_checkout operation_by_dedupe_key ◌>>=◌ lift
  refused renewed n d b =
      let (o, c, h) = Blocked-entity _ n d.operations b in
      let (e, q) = check-refuses o h in
      (
        e,
        λ gateway.
            rw
              (query-opened operations (has_dedupe_key (operation_dedupe_key request renewed)) d
                b.row o b.only c)
              (rw q refl),
      )

  -- The answer does not depend on the gateway, and nothing of the session changes.
  proceed-refused :
      (existing : Option Payment) (n : ℕ) (d : Db)
      → Blocked (operation_dedupe_key request (renewed_of existing)) n d.operations
      → (r : Result CheckoutResponse) × Answers existing r
        × ((gateway : Gateway)
            → proceed env provider request gateway existing (opened d) ≡ (r, opened d))
  unfolding proceed renewed_of lift
  proceed-refused none n d b = let (e, h) = refused none n d b in (err e, absent-Answers e, h)
  proceed-refused (some p) n d b = go (is_renewal p) refl b
    where
      go :
          (b : Bool)
          → is_renewal p ≡ b
          → Blocked (operation_dedupe_key request (if b then some p else none)) n d.operations
          → (r : Result CheckoutResponse) × Answers (some p) r
            × ((gateway : Gateway)
                → (if not b
                      then lift (respond env provider request p)
                      else open_checkout env provider request gateway (some p))
                    (opened d)
                  ≡ (r, opened d))
      go true q b = let (e, h) = refused (some p) n d b in (err e, renewed-Answers p e q, h)
      go false q b = (respond env provider request p, response_of-Answers p q, λ gateway. refl)

payment_by_system_ref-opened :
    (ref : Text) (system : System) (d : Db)
    → (payment_by_system_ref ref system (opened d)).1 ≡ opened d
unfolding payment_by_system_ref
payment_by_system_ref-opened ref system d = query-opened_state payments _ d

-- While the operation of a request is in the way, the request is answered without the gateway
-- and changes nothing: by the identifier, the link and the status of the payment that is there,
-- if that has an identifier and a link and is neither expired nor canceled, and by an error
-- otherwise.
pub execute-refused :
    (env : CheckoutEnv) (provider : GatewayProvider) (request : CheckoutRequest)
    (existing : Option Payment) (n : ℕ) (d : Db)
    → (payment_by_system_ref request.system_payment_id request.system (opened d)).0 ≡ ok existing
    → Blocked (operation_dedupe_key request (renewed_of existing)) n d.operations
    → (r : Result CheckoutResponse) × Answers existing r
      × ((gateway : Gateway) → execute env provider request gateway (opened d) ≡ (r, opened d))
unfolding execute ◌>>=◌
execute-refused env provider request existing n d found b =
    let (r, about, h) = proceed-refused env provider request existing n d b in
    (
      r,
      about,
      λ gateway. rw found (
          rw (payment_by_system_ref-opened request.system_payment_id request.system d) (h gateway)),
    )
