-- ===== src/Store/RoundTrip.antt =====
-- A payment that `save` has stored, read again: app/infra/repo.
use billing_core.Shared.{
  ℕ, ◌≡◌, refl, ap, subst, ◌∙◌, ◌&&◌, Bool, true, [], ◌∷◌, some, select, arith,
}
use billing_core.Shared.Texts.{text_eq, text_eq_iff}
use billing_core.Shared.Actions.{Result, ok, err, lift, ◌>>=◌}
use billing_core.Domain.Enums.{System, system_eq}
use billing_core.Domain.Payment
use billing_core.Domain.Payment.{Payment}
use billing_core.Store.Tables.{Saved, one_or_none, save_row, find_key}
use billing_core.Store.Tables.Uniqueness.{
  is_table, save_row-is_table, has_key-some, find_key-has_key,
}
use billing_core.Store.Tables.Found.{save_row-Stored, select-found}
use billing_core.Store.Laws.{payments-Lawful, provider_id-IsUnique, payment_ref-IsUnique}
use billing_core.Store.Session.{
  Db, Session, Table, statement, save, query, get_by_key, store_saved, written, rebuilt,
}
use billing_core.Store.Repositories.{
  payments, column_eq, payment_by_provider_id, payment_by_system_ref, payment_by_id,
}

-- The payment is found by each of its identifiers, and by the key that it was given.
pub record IsFound (p q : Payment) (s : Session) : Type 0 where
  pub by_provider : payment_by_provider_id (some p.provider_payment_id) s ≡ (ok (some q), s)
  pub by_system : payment_by_system_ref p.system_payment_id p.from_system s ≡ (ok (some q), s)
  pub key : ℕ
  pub keyed : q.id ≡ some key
  pub by_key : payment_by_id key s ≡ (ok q, s)

-- A session whose connection holds.
abbrev pub steady : Db → Db → Session
steady d c = record { db = d; committed = c; faults = [] }

module _ {A : Type 0} (t : Table A) (d c : Db) {a b : A} (built : t.row.to_domain a ≡ ok b) where
  query-select :
      (p : A → Bool)
      → select p (t.rows d) ≡ a ∷ []
      → query t p (steady d c) ≡ (ok (some b), steady d c)
  unfolding query statement one_or_none ◌>>=◌ lift
  query-select p h = rw h (rw (built, rebuilt) refl)

  get_by_key-found :
      (n : ℕ)
      → find_key t.row n (t.rows d) ≡ some a
      → get_by_key t n (steady d c) ≡ (ok b, steady d c)
  unfolding get_by_key statement ◌>>=◌ lift
  get_by_key-found n h = rw h (rw (built, rebuilt) refl)

id_of_built : (p : Payment) {q : Payment} → payments.row.to_domain p ≡ ok q → q.id ≡ p.id
unfolding Payment.construct
id_of_built p h = ground (arith, h)

system_eq_refl : (s : System) → system_eq s s ≡ true
system_eq_refl s = ground arith

module _ (p : Payment) (d c : Db) (kept : is_table payments.row d.next_id d.payments ≡ true)
    {q : Payment} where
  stored-IsFound :
      (w : Saved payments.row)
      → save_row payments.row p d.payments d.next_id ≡ ok w
      → payments.row.to_domain w.saved ≡ ok q
      → IsFound p q (store_saved payments w (steady d c))
  unfolding payment_by_provider_id payment_by_system_ref payment_by_id
  stored-IsFound w e built =
      let st =
        save_row-Stored payments.row payments-Lawful p d.payments d.next_id (λ old. refl) kept e in
      let t = save_row-is_table payments.row payments-Lawful p d.payments d.next_id kept e in
      let d' = (store_saved payments w (steady d c)).db in
      record {
        by_provider = query-select payments d' c built _ (
            select-found payments.row _ w.next st.key w.rows
              (provider_id-IsUnique (some p.provider_payment_id)) t st.found
              (st.keeps (λ r. column_eq r.provider_payment_id (some p.provider_payment_id))
                  (λ n. refl)
                ∙ (text_eq_iff p.provider_payment_id p.provider_payment_id).1 refl));
        by_system = query-select payments d' c built _ (
            select-found payments.row _ w.next st.key w.rows
              (payment_ref-IsUnique p.system_payment_id p.from_system) t st.found
              (st.keeps
                  (λ r.
                    text_eq r.system_payment_id p.system_payment_id
                    && system_eq r.from_system p.from_system)
                  (λ n. refl)
                ∙ rw
                    (
                      (text_eq_iff p.system_payment_id p.system_payment_id).1 refl,
                      system_eq_refl p.from_system,
                    )
                    refl));
        key = st.key;
        keyed =
            id_of_built w.saved built
            ∙ has_key-some payments.row st.key w.saved
                (find_key-has_key payments.row st.key w.rows st.found);
        by_key = get_by_key-found payments d' c built st.key st.found;
      }

  -- In a session whose connection holds, on a table of payments that keeps its constraints, a
  -- payment that save has stored, new or not, is found again: by the identifier of the gateway
  -- and by the identifier of its system as they were given, and by its key, as the payment that
  -- save gives.
  pub save-IsFound : {t : Session} → save payments p (steady d c) ≡ (ok q, t) → IsFound p q t
  unfolding save statement ◌>>=◌
  save-IsFound {t} = go (save_row payments.row p d.payments d.next_id) refl
    where
      go :
          (r : Result (Saved payments.row))
          → save_row payments.row p d.payments d.next_id ≡ r
          → written payments (steady d c) r ≡ (ok q, t)
          → IsFound p q t
      go (err x) e h = ground (arith, ap (λ a. a.0) h)
      go (ok w) e h = subst (IsFound p q) (ap (λ a. a.1) h) (stored-IsFound w e (ap (λ a. a.0) h))
