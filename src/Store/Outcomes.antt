-- ===== src/Store/Outcomes.antt =====
-- What is known after an action that did not raise.
use billing_core.Shared.{
  ◌≡◌, refl, ap, Bool, true, false, List, [], ◌∷◌, Option, none, some, arith, select,
}
use billing_core.Shared.Actions.{Result, ok, err, Action, continue, lift, ◌>>=◌}
use billing_core.Store.Tables.{Saved, save_row, one_or_none}
use billing_core.Store.Session.{
  Db, Session, Table, statement, commit, save, query, written, store_saved, opened, rebuilt,
}

-- The step that was taken first, and what followed from where it ended.
pub record Steps {A B : Type 0} (m : Action Session A) (f : A → Action Session B) (s : Session)
    (b : B) : Type 0 where
  pub value : A
  pub first : (m s).0 ≡ ok value
  pub next : (f value (m s).1).0 ≡ ok b
  pub ends : ((m >>= f) s).1 ≡ (f value (m s).1).1

pub bind-ok :
    {A B : Type 0} {m : Action Session A} {f : A → Action Session B} {s : Session} {b : B}
    → ((m >>= f) s).0 ≡ ok b
    → Steps m f s b
unfolding ◌>>=◌
bind-ok {A = A} {m = m} {f = f} {s = s} {b = b} h = go (m s).0 refl h
  where
    go : (r : Result A) → (m s).0 ≡ r → (continue r f (m s).1).0 ≡ ok b → Steps m f s b
    go (ok a) e h = record {
      value = a;
      first = e;
      next = h;
      ends = ap (λ r. (continue r f (m s).1).1) e;
    }
    go (err x) e h = ground arith

pub commit-ok : (s : Session) {u : Unit} → (commit s).0 ≡ ok u → (commit s).1.committed ≡ s.db
unfolding commit statement
commit-ok s h = ground arith

-- What a call of `save` that did not raise has written.
pub record Writes {A : Type 0} (t : Table A) (a : A) (s : Session) (b : A) : Type 0 where
  pub writes : Saved t.row
  pub saves : save_row t.row a (t.rows s.db) s.db.next_id ≡ ok writes
  pub builds : t.row.to_domain writes.saved ≡ ok b
  pub leaves : (save t a s).1.db ≡ (store_saved t writes s).db

pub save-ok :
    {A : Type 0} (t : Table A) (a : A) (s : Session) {b : A}
    → (save t a s).0 ≡ ok b
    → Writes t a s b
unfolding save statement ◌>>=◌
save-ok {A = A} t a s {b} h = started s.faults h
  where
    go :
        (s : Session) (r : Result (Saved t.row))
        → save_row t.row a (t.rows s.db) s.db.next_id ≡ r
        → (written t s r).0 ≡ ok b
        → (w : Saved t.row) × (save_row t.row a (t.rows s.db) s.db.next_id ≡ ok w)
          × (t.row.to_domain w.saved ≡ ok b)
          × ((written t s r).1.db ≡ (store_saved t w s).db)
    go s (ok w) e h = (w, e, h, refl)
    go s (err x) e h = ground arith

    started :
        (l : List Bool)
        → (save t a (record s { faults = l })).0 ≡ ok b
        → Writes t a (record s { faults = l }) b
    started [] h =
        let (w, e, c, l) = go (record s { faults = [] }) _ refl h in
        record { writes = w; saves = e; builds = c; leaves = l }
    started (true ∷ l) h = ground arith
    started (false ∷ l) h =
        let (w, e, c, l) = go (record s { faults = l }) _ refl h in
        record { writes = w; saves = e; builds = c; leaves = l }

-- What a lookup that did not raise has found.
pub data Found {A : Type 0} (t : Table A) (p : A → Bool) (d : Db) (o : Option A) : Type 0 where
  absent : select p (t.rows d) ≡ [] → o ≡ none → Found t p d o
  present :
      (row b : A)
      → select p (t.rows d) ≡ row ∷ []
      → t.row.to_domain row ≡ ok b
      → o ≡ some b
      → Found t p d o

module _ {A : Type 0} (t : Table A) (p : A → Bool) where
  Found-in :
      (d : Db) (l : List A) (row o : Option A)
      → select p (t.rows d) ≡ l
      → one_or_none l ≡ ok row
      → rebuilt t row ≡ ok o
      → Found t p d o
  unfolding one_or_none
  Found-in d [] none o e q h = absent e (ground arith)
  Found-in d [] (some row) o e q h = ground arith
  Found-in d (a ∷ b ∷ l) row o e q h = ground arith
  Found-in d (a ∷ []) none o e q h = ground arith
  Found-in d (a ∷ []) (some row) o e q h = go (t.row.to_domain a) refl
    where
      go : (r : Result A) → t.row.to_domain a ≡ r → Found t p d o
      go (ok b) f = present a b e f (ground arith)
      go (err x) f = ground arith

  pub query-ok : (s : Session) {o : Option A} → (query t p s).0 ≡ ok o → Found t p s.db o
  unfolding query lift
  query-ok s {o} h =
      let read = bind-ok h in
      let found = bind-ok read.next in Found-in s.db _ found.value o refl found.first found.next

  -- The lookup of a row, over a connection that holds.
  pub query-opened :
      (d : Db) (row b : A)
      → select p (t.rows d) ≡ row ∷ []
      → t.row.to_domain row ≡ ok b
      → query t p (opened d) ≡ (ok (some b), opened d)
  unfolding query statement ◌>>=◌ lift one_or_none
  query-opened d row b e h = rw e (rw (h, rebuilt) refl)

pub commit-db : (s : Session) {u : Unit} → (commit s).0 ≡ ok u → (commit s).1.db ≡ s.db
unfolding commit statement
commit-db s h = ground arith

-- A lookup leaves a session whose connection holds as it is.
pub query-opened_state :
    {A : Type 0} (t : Table A) (p : A → Bool) (d : Db) → (query t p (opened d)).1 ≡ opened d
unfolding query statement ◌>>=◌ lift
query-opened_state {A} t p d = go (one_or_none (select p (t.rows d)))
  where
    go :
        (r : Result (Option A))
        → (continue {B = Option A} r (λ row s. (rebuilt t row, s)) (opened d)).1 ≡ opened d
    go (ok row) = refl
    go (err e) = refl
