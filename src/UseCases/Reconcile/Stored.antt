-- ===== src/UseCases/Reconcile/Stored.antt =====
-- What the use cases that ask the gateway for the state of a payment commit.
use billing_core.Shared.{
  ◌≡◌, ◌≢◌, refl, ◌∙◌, Bool, true, false, Option, none, some, arith, if◌then◌else◌, ℕ,
}
use billing_core.Shared.Actions.{Error, Result, ok, err, Action, continue, pure, ◌>>=◌, ◌>>◌}
use billing_core.Domain.Payment.{Payment}
use billing_core.Store.Session.{Session, commit, save}
use billing_core.Store.Repositories.{payments, payment_by_id}
use billing_core.Store.Transactions.{
  Keeps, Quiet, Atomic-commit, committed_view, keeps_rules, Keeps-raise_if,
}
use billing_core.UseCases.Reconcile.Execute.{
  ReconcileEnv, store_payment, reconcile_open, reconcile_payment, apply_method,
  sync_checkout_status,
}

-- Without a payment for an answer, nothing is committed.
pub record Answers (m : Action Session (Option Payment)) : Type 0 where
  pub at : (s : Session) → ((p : Payment) → (m s).0 ≢ ok (some p)) → (m s).1.committed ≡ s.committed

Answers-none : Answers (pure none)
unfolding pure
Answers-none = record { at = λ s h. refl }

Answers-if :
    (b : Bool) (m n : Action Session (Option Payment))
    → Answers m
    → Answers n
    → Answers (if b then m else n)
Answers-if true m n p q = p
Answers-if false m n p q = q

Answers-bind :
    {A : Type 0} (m : Action Session A) (f : A → Action Session (Option Payment))
    → Quiet m
    → ((a : A) → Answers (f a))
    → Answers (m >>= f)
unfolding ◌>>=◌
Answers-bind {A = A} m f q p = record { at = λ s h. go (m s).0 (m s).1 s (q.at s) h }
  where
    go :
        (r : Result A) (t s : Session)
        → t.committed ≡ s.committed
        → ((x : Payment) → (continue r f t).0 ≢ ok (some x))
        → (continue r f t).1.committed ≡ s.committed
    go (ok a) t s e h = (p a).at t h ∙ e
    go (err x) t s e h = e

Answers-committed : (p : Payment) → Answers (commit >> pure (some p))
unfolding ◌>>=◌ pure
Answers-committed p = record {
  at = λ s h. go (commit s).0 (commit s).1 s (λ e x. Atomic-commit.at s x) h;
}
  where
    go :
        (r : Result (Unit {0})) (t s : Session)
        → ((e : Error) → r ≡ err e → t.committed ≡ s.committed)
        → ((x : Payment)
            → (continue {B = Option Payment} r (λ u s. (ok (some p), s)) t).0 ≢ ok (some x))
        → (continue {B = Option Payment} r (λ u s. (ok (some p), s)) t).1.committed ≡ s.committed
    go (ok u) t s e h = ground (arith, h p)
    go (err x) t s e h = e x refl

Answers-store_payment : (p : Payment) → Answers (store_payment p)
unfolding store_payment
Answers-store_payment p =
    Answers-bind (save payments p) _ (search keeps_rules) λ saved. Answers-committed saved

ruleset answers_rules = (keeps_rules, Answers-none, Answers-if, Answers-bind, Answers-store_payment)

module _ (env : ReconcileEnv) where
  Answers-reconcile_open : (p : Payment) → Answers (reconcile_open env p)
  unfolding reconcile_open
  Answers-reconcile_open p = search answers_rules

  Keeps-payment_by_id : (n : ℕ) → Keeps committed_view (payment_by_id n)
  unfolding payment_by_id
  Keeps-payment_by_id n = search keeps_rules

  -- A reconciliation that raises, or answers that nothing has changed, commits nothing.
  pub reconcile_payment-Answers :
      (payment_id : ℕ) (s : Session)
      → ((p : Payment) → (reconcile_payment env payment_id s).0 ≢ ok (some p))
      → (reconcile_payment env payment_id s).1.committed ≡ s.committed
  unfolding reconcile_payment
  reconcile_payment-Answers payment_id s h =
      (Answers-bind _ _ (Keeps-payment_by_id payment_id)
          λ p. Answers-if _ _ _ Answers-none (Answers-reconcile_open p)).at
        s h

  Answers-apply_method :
      (o : Option (Action Payment Unit)) (p : Payment) → Answers (apply_method env o p)
  unfolding apply_method
  Answers-apply_method none p = Answers-none
  Answers-apply_method (some m) p = search answers_rules

  -- A synchronisation of a checkout that raises, or answers that nothing is to be done, commits
  -- nothing.
  pub sync_checkout_status-Answers :
      (payment : Payment) (s : Session)
      → ((p : Payment) → (sync_checkout_status env payment s).0 ≢ ok (some p))
      → (sync_checkout_status env payment s).1.committed ≡ s.committed
  unfolding sync_checkout_status
  sync_checkout_status-Answers payment s h =
      (Answers-bind _ _ (search keeps_rules) λ checkout.
          Answers-bind _ _ (Keeps-raise_if committed_view _ _)
            λ u. Answers-apply_method _ payment).at
        s h
