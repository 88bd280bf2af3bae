-- ===== src/Store/Preserves.antt =====
-- What holds of the working and of the committed database, and the actions that keep it: one rule
-- for each way to build an action.
use billing_core.Shared.{
  ℕ, sym, subst, Bool, true, false, List, [], ◌∷◌, Option, none, some, if◌then◌else◌,
}
use billing_core.Shared.Actions.{
  Error, Result, ok, err, Action, pure, raise, lift, raise_if, call, cases, continue, handled,
  attempt, resumed, try_then, ◌>>=◌,
}
use billing_core.Store.Tables.{Saved, save_row}
use billing_core.Store.Session.{
  Db, Session, Table, statement, commit, rollback, query, query_or_raise, get_by_key, save, written,
}
use billing_core.Store.Transactions.{
  Keeps, Keeps-statement, Keeps-query, Keeps-query_or_raise, Keeps-get_by_key, Keeps-pure,
  Keeps-raise, Keeps-lift, Keeps-raise_if, Keeps-call,
}

-- The action keeps what holds of both databases, whether it raises or not.
pub record Preserves (P : Db → Type 0) {A : Type 0} (m : Action Session A) : Type 0 where
  pub at : (s : Session) → P s.db × P s.committed → P (m s).1.db × P (m s).1.committed

abbrev pub both_view : Db → Db → Db × Db
both_view d c = (d, c)

module _ {P : Db → Type 0} {A : Type 0} where
  pub Preserves-Keeps : (m : Action Session A) → Keeps both_view m → Preserves P m
  Preserves-Keeps m h = record { at = λ s g. subst (λ p. P p.0 × P p.1) (sym (h.at s)) g }

  pub Preserves-pure : (a : A) → Preserves P (pure a)
  Preserves-pure a = Preserves-Keeps _ (Keeps-pure both_view a)

  pub Preserves-raise : (e : Error) → Preserves P (raise {A = A} e)
  Preserves-raise e = Preserves-Keeps _ (Keeps-raise both_view e)

  pub Preserves-lift : (r : Result A) → Preserves P (lift r)
  Preserves-lift r = Preserves-Keeps _ (Keeps-lift both_view r)

  pub Preserves-if :
      (b : Bool) (m n : Action Session A)
      → Preserves P m
      → Preserves P n
      → Preserves P (if b then m else n)
  Preserves-if true m n p q = p
  Preserves-if false m n p q = q

  pub Preserves-attempt :
      (m : Action Session A) (h : Error → Action Session A)
      → Preserves P m
      → ((e : Error) → Preserves P (h e))
      → Preserves P (attempt m h)
  unfolding attempt
  Preserves-attempt m h p q = record { at = λ s g. go (m s).0 (m s).1 (p.at s g) }
    where
      go :
          (r : Result A) (t : Session)
          → P t.db × P t.committed
          → P (handled r h t).1.db × P (handled r h t).1.committed
      go (ok a) t g = g
      go (err e) t g = (q e).at t g

pub Preserves-statement : {P : Db → Type 0} → Preserves P statement
Preserves-statement = Preserves-Keeps statement (Keeps-statement both_view)

pub Preserves-raise_if : {P : Db → Type 0} (b : Bool) (e : Error) → Preserves P (raise_if b e)
Preserves-raise_if b e = Preserves-Keeps _ (Keeps-raise_if both_view b e)

module _ {P : Db → Type 0} {A B : Type 0} where
  pub Preserves-call : (m : Action A B) (a : A) → Preserves P (call {S = Session} m a)
  Preserves-call m a = Preserves-Keeps _ (Keeps-call both_view m a)

  pub Preserves-bind :
      (m : Action Session A) (f : A → Action Session B)
      → Preserves P m
      → ((a : A) → Preserves P (f a))
      → Preserves P (m >>= f)
  unfolding ◌>>=◌
  Preserves-bind m f p q = record { at = λ s g. go (m s).0 (m s).1 (p.at s g) }
    where
      go :
          (r : Result A) (t : Session)
          → P t.db × P t.committed
          → P (continue r f t).1.db × P (continue r f t).1.committed
      go (ok a) t g = (q a).at t g
      go (err e) t g = g

  pub Preserves-cases :
      (o : Option A) (m : Action Session B) (f : A → Action Session B)
      → Preserves P m
      → ((a : A) → Preserves P (f a))
      → Preserves P (cases o m f)
  unfolding cases
  Preserves-cases none m f p q = p
  Preserves-cases (some a) m f p q = q a

  pub Preserves-try_then :
      (m : Action Session A) (h : Error → Action Session B) (f : A → Action Session B)
      → Preserves P m
      → ((e : Error) → Preserves P (h e))
      → ((a : A) → Preserves P (f a))
      → Preserves P (try_then m h f)
  unfolding try_then
  Preserves-try_then m h f p q k = record { at = λ s g. go (m s).0 (m s).1 (p.at s g) }
    where
      go :
          (r : Result A) (t : Session)
          → P t.db × P t.committed
          → P (resumed r h f t).1.db × P (resumed r h f t).1.committed
      go (ok a) t g = (k a).at t g
      go (err e) t g = (q e).at t g

pub Preserves-rollback : {P : Db → Type 0} → Preserves P rollback
unfolding rollback
Preserves-rollback = record { at = λ s g. (g.1, g.1) }

pub Preserves-commit : {P : Db → Type 0} → Preserves P commit
unfolding commit statement
Preserves-commit {P} = record { at = λ s g. go s s.faults g }
  where
    go :
        (s : Session) (l : List Bool)
        → P s.db × P s.committed
        → P (commit (record s { faults = l })).1.db
          × P (commit (record s { faults = l })).1.committed
    go s [] g = (g.0, g.0)
    go s (false ∷ l) g = (g.0, g.0)
    go s (true ∷ l) g = (g.1, g.1)

module _ {P : Db → Type 0} {A : Type 0} (t : Table A) where
  pub Preserves-query : (p : A → Bool) → Preserves P (query t p)
  Preserves-query p = Preserves-Keeps _ (Keeps-query both_view t p)

  pub Preserves-query_or_raise : (p : A → Bool) → Preserves P (query_or_raise t p)
  Preserves-query_or_raise p = Preserves-Keeps _ (Keeps-query_or_raise both_view t p)

  pub Preserves-get_by_key : (n : ℕ) → Preserves P (get_by_key t n)
  Preserves-get_by_key n = Preserves-Keeps _ (Keeps-get_by_key both_view t n)

pub Preserves-save_of :
    {P : Db → Type 0} {A : Type 0} (t : Table A) (a : A)
    → ((s : Session) → P s.db → P (written t s (save_row t.row a (t.rows s.db) s.db.next_id)).1.db)
    → Preserves P (save t a)
unfolding save
Preserves-save_of {P} t a h =
    Preserves-bind statement _ Preserves-statement λ u. record {
      at = λ s g. go s g.0 g.1 (save_row t.row a (t.rows s.db) s.db.next_id) (h s g.0);
    }
  where
    go :
        (s : Session)
        → P s.db
        → P s.committed
        → (r : Result (Saved t.row)) → P (written t s r).1.db
        → P (written t s r).1.db × P (written t s r).1.committed
    go s g k (ok w) x = (x, k)
    go s g k (err e) x = (x, k)

pub ruleset preserves_rules = (
  Preserves-pure, Preserves-raise, Preserves-lift, Preserves-raise_if, Preserves-if,
  Preserves-attempt, Preserves-call, Preserves-bind, Preserves-cases, Preserves-try_then,
  Preserves-rollback, Preserves-commit, Preserves-query, Preserves-query_or_raise,
  Preserves-get_by_key,
)
