-- ===== src/Workers/Reconciliation/Found.antt =====
-- The lookup of a payment by its identifier at the gateway, as the reconciliation uses it.
use billing_core.Shared.{
  ◌≡◌, refl, Bool, true, false, not, List, [], ◌∷◌, Option, none, some, arith, select,
}
use billing_core.Shared.Texts.{Text}
use billing_core.Shared.Actions.{Result, ok, err, Action, pure, lift, continue, ◌>>=◌, ◌>>◌}
use billing_core.Domain.Calendar.{Datetime}
use billing_core.Domain.Payment
use billing_core.Domain.Payment.{Payment, Draft}
use billing_core.Store.Tables.{one_or_none}
use billing_core.Store.Session.{Session, statement, query, rebuilt}
use billing_core.Store.Repositories.{payments, payment_by_provider_id}
use billing_core.Workers.Reconciliation.Payload.{is_not_found}

-- The outcome is no `NotFoundError`.
abbrev pub is_plain : {A : Type 0} → Result A → Bool
is_plain (ok a) = true
is_plain (err e) = not (is_not_found e)

pub record Finds {A : Type 0} (m : Action Session A) : Type 0 where
  pub at : (s : Session) → is_plain (m s).0 ≡ true

Finds-lift : {A : Type 0} (r : Result A) → is_plain r ≡ true → Finds (lift r)
unfolding lift
Finds-lift r h = record { at = λ s. h }

Finds-bind :
    {A B : Type 0} (m : Action Session A) (f : A → Action Session B)
    → Finds m
    → ((a : A) → Finds (f a))
    → Finds (m >>= f)
unfolding ◌>>=◌
Finds-bind {A} {B} m f p q = record { at = λ s. go (m s).0 (m s).1 (p.at s) }
  where
    go : (r : Result A) (t : Session) → is_plain r ≡ true → is_plain (continue r f t).0 ≡ true
    go (ok a) t h = (q a).at t
    go (err x) t h = h

statement-Finds : Finds statement
unfolding statement
statement-Finds = record { at = λ s. go s s.faults }
  where
    go : (s : Session) (l : List Bool) → is_plain (statement (record s { faults = l })).0 ≡ true
    go s [] = refl
    go s (true ∷ l) = refl
    go s (false ∷ l) = refl

construct-plain : (d : Draft) (now : Datetime) → is_plain (Payment.construct d now) ≡ true
unfolding Payment.construct
construct-plain d now = ground arith

rebuilt-plain : (o : Option Payment) → is_plain (rebuilt payments o) ≡ true
rebuilt-plain none = refl
rebuilt-plain (some p) = go (payments.row.to_domain p) (construct-plain _ p.created_at)
  where
    go :
        (r : Result Payment)
        → is_plain r ≡ true
        → is_plain (elim r [ ok b ↦ ok (some b) | err e ↦ err e ]) ≡ true
    go (ok b) h = refl
    go (err e) h = h

one_or_none-plain : (l : List Payment) → is_plain (one_or_none l) ≡ true
unfolding one_or_none
one_or_none-plain [] = refl
one_or_none-plain (a ∷ []) = refl
one_or_none-plain (a ∷ b ∷ l) = refl

query-Finds : (p : Payment → Bool) → Finds (query payments p)
unfolding query
query-Finds p = record {
  at = λ s.
      (Finds-bind statement _ statement-Finds λ u.
          Finds-bind _ _ (Finds-lift _ (one_or_none-plain (select p (payments.rows s.db))))
            λ row. Finds-lift _ (rebuilt-plain row)).at
        s;
}

-- A payment that is asked for by its identifier is `None` where it is not there.
pub payment_by_provider_id-Finds : (i : Option Text) → Finds (payment_by_provider_id i >> pure tt)
unfolding payment_by_provider_id pure
payment_by_provider_id-Finds i =
    Finds-bind (payment_by_provider_id i) _ (query-Finds _) λ o. record { at = λ s. refl }
