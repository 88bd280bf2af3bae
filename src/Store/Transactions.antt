-- ===== src/Store/Transactions.antt =====
-- What an action leaves of the database, one rule for each way to build an action.
use billing_core.Shared.{
  ℕ, List, [], ◌∷◌, ◌≡◌, refl, ◌∙◌, Bool, true, false, Option, none, some, arith, if◌then◌else◌,
}
use billing_core.Shared.Actions.{
  Error, Result, ok, err, Action, pure, raise, raise_if, lift, call, cases, continue, ◌>>=◌, ◌>>◌,
}
use billing_core.Store.Tables.{Saved, save_row}
use billing_core.Store.Session.{
  Db, written, Session, Table, statement, commit, query, query_or_raise, get_by_key, save,
}

-- The action keeps a view of the working and the committed database, whether it raises or not.
pub record Keeps {B : Type 0} (view : Db → Db → B) {A : Type 0} (m : Action Session A)
    : Type 0 where
  pub at : (s : Session) → view (m s).1.db (m s).1.committed ≡ view s.db s.committed

-- The view does not see a table.
pub record Ignores {B A : Type 0} (view : Db → Db → B) (t : Table A) : Type 0 where
  pub at :
      (l : List A) (n : ℕ) (d c : Db) → view (record (t.with_rows l d) { next_id = n }) c ≡ view d c

abbrev pub committed_view : Db → Db → Db
committed_view d c = c

-- The action commits nothing.
abbrev pub Quiet : {A : Type 0} → Action Session A → Type 0
Quiet m = Keeps committed_view m

-- If the action raises, it has committed nothing.
pub record Atomic {A : Type 0} (m : Action Session A) : Type 0 where
  pub at : (s : Session) {e : Error} → (m s).0 ≡ err e → (m s).1.committed ≡ s.committed

pub Ignores-committed : {A : Type 0} (t : Table A) → Ignores committed_view t
Ignores-committed t = record { at = λ l n d c. refl }

module _ {C : Type 0} (view : Db → Db → C) {A : Type 0} where
  pub Keeps-pure : (a : A) → Keeps view (pure a)
  unfolding pure
  Keeps-pure a = record { at = λ s. refl }

  pub Keeps-raise : (e : Error) → Keeps view (raise {A = A} e)
  unfolding raise
  Keeps-raise e = record { at = λ s. refl }

  pub Keeps-lift : (r : Result A) → Keeps view (lift r)
  unfolding lift
  Keeps-lift r = record { at = λ s. refl }

  pub Keeps-if :
      (b : Bool) (m n : Action Session A)
      → Keeps view m
      → Keeps view n
      → Keeps view (if b then m else n)
  Keeps-if true m n p q = p
  Keeps-if false m n p q = q

module _ {C : Type 0} (view : Db → Db → C) {A B : Type 0} where
  pub Keeps-bind :
      (m : Action Session A) (f : A → Action Session B)
      → Keeps view m
      → ((a : A) → Keeps view (f a))
      → Keeps view (m >>= f)
  unfolding ◌>>=◌
  Keeps-bind m f q k = record { at = λ s. go (m s).0 (m s).1 s (q.at s) }
    where
      go :
          (r : Result A) (t s : Session)
          → view t.db t.committed ≡ view s.db s.committed
          → view (continue r f t).1.db (continue r f t).1.committed ≡ view s.db s.committed
      go (ok a) t s h = (k a).at t ∙ h
      go (err e) t s h = h

  pub Keeps-call : (m : Action A B) (a : A) → Keeps view (call {S = Session} m a)
  unfolding call
  Keeps-call m a = record { at = λ s. go (m a).0 (m a).1 s }
    where
      go :
          (r : Result B) (a' : A) (s : Session)
          → view
              (continue {B = B × A} r (λ b t. (ok (b, a'), t)) s).1.db
              (continue {B = B × A} r (λ b t. (ok (b, a'), t)) s).1.committed
            ≡ view s.db s.committed
      go (ok b) a' s = refl
      go (err e) a' s = refl

module _ {A : Type 0} where
  pub Atomic-if :
      (b : Bool) (m n : Action Session A) → Atomic m → Atomic n → Atomic (if b then m else n)
  Atomic-if true m n p q = p
  Atomic-if false m n p q = q

  pub Atomic-Quiet : (m : Action Session A) → Quiet m → Atomic m
  Atomic-Quiet m q = record { at = λ s e. q.at s }

module _ {A B : Type 0} where
  pub Atomic-cases :
      (o : Option A) (m : Action Session B) (f : A → Action Session B)
      → Atomic m
      → ((a : A) → Atomic (f a))
      → Atomic (cases o m f)
  unfolding cases
  Atomic-cases none m f p q = p
  Atomic-cases (some a) m f p q = q a

  pub Atomic-bind :
      (m : Action Session A) (f : A → Action Session B)
      → Quiet m
      → ((a : A) → Atomic (f a))
      → Atomic (m >>= f)
  unfolding ◌>>=◌
  Atomic-bind m f q k = record { at = λ s h. go (m s).0 (m s).1 s (q.at s) h }
    where
      go :
          (r : Result A) (t s : Session) {e : Error}
          → t.committed ≡ s.committed
          → (continue r f t).0 ≡ err e
          → (continue r f t).1.committed ≡ s.committed
      go (ok a) t s h r = (k a).at t r ∙ h
      go (err e) t s h r = h

  -- What cannot raise may follow.
  pub Atomic-then : (m : Action Session A) (b : B) → Atomic m → Atomic (m >> pure b)
  unfolding ◌>>=◌
  Atomic-then m b q = record { at = λ s h. go (m s).0 (m s).1 s refl refl h }
    where
      go :
          (r : Result A) (t s : Session) {e : Error}
          → (m s).0 ≡ r
          → (m s).1 ≡ t
          → (continue r (λ _. pure b) t).0 ≡ err e
          → (continue r (λ _. pure b) t).1.committed ≡ s.committed
      go (ok a) t s p p' h = cc
      go (err e) t s p p' h = rw (← p') (q.at s p)

module _ {C : Type 0} (view : Db → Db → C) where
  pub Keeps-statement : Keeps view statement
  unfolding statement
  Keeps-statement = record { at = λ s. go s s.faults }
    where
      go :
          (s : Session) (l : List Bool)
          → view
              (statement (record s { faults = l })).1.db
              (statement (record s { faults = l })).1.committed
            ≡ view s.db s.committed
      go s [] = refl
      go s (b ∷ l) = refl

  module _ {A : Type 0} (t : Table A) where
    pub Keeps-query : (p : A → Bool) → Keeps view (query t p)
    unfolding query
    Keeps-query p = record {
      at = λ s.
          (Keeps-bind view statement _ Keeps-statement
              (λ _. Keeps-bind view _ _ (Keeps-lift view _) (λ row. Keeps-lift view _))).at
            s;
    }

    pub Keeps-query_or_raise : (p : A → Bool) → Keeps view (query_or_raise t p)
    unfolding query_or_raise
    Keeps-query_or_raise p =
        Keeps-bind view (query t p) _ (Keeps-query p) (λ found. Keeps-lift view _)

    pub Keeps-get_by_key : (n : ℕ) → Keeps view (get_by_key t n)
    unfolding get_by_key
    Keeps-get_by_key n = record {
      at = λ s. (Keeps-bind view statement _ Keeps-statement (λ _. Keeps-lift view _)).at s;
    }

    pub Keeps-save : (a : A) → Ignores view t → Keeps view (save t a)
    unfolding save
    Keeps-save a h =
        Keeps-bind view statement _ Keeps-statement
          λ _. record { at = λ s. go s (save_row t.row a (t.rows s.db) s.db.next_id) }
      where
        go :
            (s : Session) (r : Result (Saved t.row))
            → view (written t s r).1.db (written t s r).1.committed ≡ view s.db s.committed
        go s (ok w) = h.at w.rows w.next s.db s.committed
        go s (err e) = refl

pub Keeps-raise_if :
    {C : Type 0} (view : Db → Db → C) (b : Bool) (e : Error) → Keeps view (raise_if b e)
unfolding raise_if
Keeps-raise_if view b e = record { at = λ s. refl }

pub Atomic-commit : Atomic commit
unfolding commit statement
Atomic-commit = record { at = λ s h. ground arith }

pub ruleset keeps_rules = (
  Keeps-pure, Keeps-raise, Keeps-lift, Keeps-if, Keeps-bind, Keeps-call, Keeps-query,
  Keeps-query_or_raise, Keeps-get_by_key, Keeps-save, Keeps-raise_if, Ignores-committed,
)
