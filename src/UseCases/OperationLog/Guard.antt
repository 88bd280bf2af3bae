-- ===== src/UseCases/OperationLog/Guard.antt =====
-- Actions that keep an operation in the way of another call, in the working and in the committed
-- database: one rule for each way to build an action.
use billing_core.Shared.{
  ◌≡◌, refl, ap, sym, subst, ℕ, Bool, true, false, List, [], ◌∷◌, some, if◌then◌else◌,
}
use billing_core.Shared.Texts.{Text}
use billing_core.Shared.Actions.{
  Error, Result, ok, err, Action, continue, handled, attempt, call, ◌>>=◌,
}
use billing_core.Domain.Operation.{GatewayOperation}
use billing_core.Store.Tables.{Saved, save_row}
use billing_core.Store.Session.{Db, Session, statement, commit, rollback, save, written}
use billing_core.Store.Repositories.{operations, payments}
use billing_core.Store.Transactions.{Keeps, Ignores, Keeps-statement}
use billing_core.UseCases.OperationLog.{is_open, Blocked, Blocked-save_row}

pub record Guarded (k : Text) (n : ℕ) (s : Session) : Type 0 where
  pub working : Blocked k n s.db.operations
  pub committed : Blocked k n s.committed.operations

pub record Maintains (k : Text) (n : ℕ) {A : Type 0} (m : Action Session A) : Type 0 where
  pub at : (s : Session) → Guarded k n s → Guarded k n (m s).1

abbrev pub operations_view : Db → Db → List GatewayOperation × List GatewayOperation
operations_view d c = (d.operations, c.operations)

pub Ignores-payments : Ignores operations_view payments
Ignores-payments = record { at = λ l n d c. refl }

module _ (k : Text) (n : ℕ) {A : Type 0} where
  pub Maintains-Keeps : (m : Action Session A) → Keeps operations_view m → Maintains k n m
  Maintains-Keeps m h = record {
    at = λ s g. record {
      working = subst (Blocked k n) (sym (ap (λ x. x.0) (h.at s))) g.working;
      committed = subst (Blocked k n) (sym (ap (λ x. x.1) (h.at s))) g.committed;
    };
  }

  pub Maintains-if :
      (b : Bool) (m m' : Action Session A)
      → Maintains k n m
      → Maintains k n m'
      → Maintains k n (if b then m else m')
  Maintains-if true m m' p q = p
  Maintains-if false m m' p q = q

  pub Maintains-attempt :
      (m : Action Session A) (h : Error → Action Session A)
      → Maintains k n m
      → ((e : Error) → Maintains k n (h e))
      → Maintains k n (attempt m h)
  unfolding attempt
  Maintains-attempt m h p q = record { at = λ s g. go (m s).0 (m s).1 (p.at s g) }
    where
      go : (r : Result A) (t : Session) → Guarded k n t → Guarded k n (handled r h t).1
      go (ok a) t g = g
      go (err e) t g = (q e).at t g

module _ (k : Text) (n : ℕ) {A B : Type 0} where
  pub Maintains-bind :
      (m : Action Session A) (f : A → Action Session B)
      → Maintains k n m
      → ((a : A) → Maintains k n (f a))
      → Maintains k n (m >>= f)
  unfolding ◌>>=◌
  Maintains-bind m f p q = record { at = λ s g. go (m s).0 (m s).1 (p.at s g) }
    where
      go : (r : Result A) (t : Session) → Guarded k n t → Guarded k n (continue r f t).1
      go (ok a) t g = (q a).at t g
      go (err e) t g = g

pub Maintains-rollback : (k : Text) (n : ℕ) → Maintains k n rollback
unfolding rollback
Maintains-rollback k n = record {
  at = λ s g. record { working = g.committed; committed = g.committed };
}

pub Maintains-commit : (k : Text) (n : ℕ) → Maintains k n commit
unfolding commit statement
Maintains-commit k n = record { at = λ s g. go s s.faults g }
  where
    go :
        (s : Session) (l : List Bool)
        → Guarded k n s
        → Guarded k n (commit (record s { faults = l })).1
    go s [] g = record { working = g.working; committed = g.working }
    go s (false ∷ l) g = record { working = g.working; committed = g.working }
    go s (true ∷ l) g = record { working = g.committed; committed = g.committed }

pub Maintains-save :
    (k : Text) (n : ℕ) (o : GatewayOperation)
    → o.id ≡ some n
    → is_open o ≡ true
    → Maintains k n (save operations o)
unfolding save
Maintains-save k n o i b =
    Maintains-bind k n statement _ (Maintains-Keeps k n statement (Keeps-statement operations_view))
      λ _. record {
        at = λ s g. go s g (save_row operations.row o s.db.operations s.db.next_id) refl;
      }
  where
    go :
        (s : Session)
        → Guarded k n s
        → (r : Result (Saved operations.row))
        → save_row operations.row o s.db.operations s.db.next_id ≡ r
        → Guarded k n (written operations s r).1
    go s g (ok w) e = record {
      working = Blocked-save_row k n s.db.next_id s.db.operations o g.working i b e;
      committed = g.committed;
    }
    go s g (err x) e = g

-- A method that is called on an object, and what is known of the object then.
pub Maintains-call :
    (k : Text) (n : ℕ) {P B C : Type 0} (m : Action P B) (p : P) (f : B × P → Action Session C)
    → ((b : B) (p' : P) → m p ≡ (ok b, p') → Maintains k n (f (b, p')))
    → Maintains k n (call m p >>= f)
unfolding ◌>>=◌ call
Maintains-call k n {P = P} {B = B} m p f h = record { at = λ s g. go (m p).0 (m p).1 refl s g }
  where
    go :
        (r : Result B) (p' : P)
        → m p ≡ (r, p')
        → (s : Session) → Guarded k n s
        → Guarded k n
            (continue
              (continue r (λ b t. (ok (b, p'), t)) s).0
              f
              (continue {B = B × P} r (λ b t. (ok (b, p'), t)) s).1).1
    go (ok b) p' e s g = (h b p' e).at s g
    go (err x) p' e s g = g
