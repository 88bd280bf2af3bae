-- ===== src/Store/Tables/Uniqueness.antt =====
-- The unique constraints of a table, and what they give the lookups of app/infra/repo.
use billing_core.Shared.{
  ℕ, suc, ◌≡◌, refl, Bool, true, false, not, ◌&&◌, ◌||◌, List, [], ◌∷◌, ◌++◌, Option, none, some,
  ltb, select, any, arith,
}
use billing_core.Shared.Actions.{ok, err, not_found}
use billing_core.Store.Tables.{
  Row, has_key, is_key, find_key, replace_key, Saved, insert_row, update_row, save_row,
}

-- What the five tables have in common.
pub record Lawful {A : Type 0} (r : Row A) : Type 0 where
  pub clashes_sym : (a b : A) → r.clashes a b ≡ r.clashes b a
  pub key-with_key : (n : ℕ) (a : A) → r.key (r.with_key n a) ≡ some n
  pub clashes-with_key : (n : ℕ) (a b : A) → r.clashes (r.with_key n a) b ≡ r.clashes a b
  pub key-written :
      (n : ℕ) (old a : A) → r.key a ≡ some n → r.key old ≡ some n → r.key (r.written old a) ≡ some n

module _ {A : Type 0} (r : Row A) where
  -- A row has a key below the next one.
  abbrev key_below : Option ℕ → ℕ → Bool
  key_below none next = false
  key_below (some n) next = ltb n next

  abbrev same_key : Option ℕ → A → Bool
  same_key none b = false
  same_key (some n) b = has_key r n b

  -- Two rows that a constraint keeps apart.
  abbrev pub conflicts : A → A → Bool
  conflicts a b = same_key (r.key a) b || r.clashes a b

  -- Every row has its key, and no two rows are in conflict.
  unfoldable pub is_table : ℕ → List A → Bool
  unfolding any
  is_table next [] = true
  is_table next (a ∷ l) = key_below (r.key a) next && (not (any (conflicts a) l) && is_table next l)

module _ {A : Type 0} where
  any-append : (p : A → Bool) (l m : List A) → any p (l ++ m) ≡ any p l || any p m
  unfolding any
  any-append p [] m = refl
  any-append p (a ∷ l) m = ground (arith, any-append p l m)

  -- What a test says of the one row that another test selects.
  pub any-select :
      (p q : A → Bool) (l : List A) {a : A} {m : List A}
      → any q l ≡ false
      → select p l ≡ a ∷ m
      → q a ≡ false
  unfolding any select
  any-select p q [] h s = ground arith
  any-select p q (b ∷ l) {a} {m} h s = ground (arith, any-select p q l {a = a} {m = m})

  pub select-append : (p : A → Bool) (l m : List A) → select p (l ++ m) ≡ select p l ++ select p m
  unfolding select
  select-append p [] m = refl
  select-append p (a ∷ l) m = ground (arith, select-append p l m)

module _ {A : Type 0} (r : Row A) where
  pub has_key-some : (n : ℕ) (a : A) → has_key r n a ≡ true → r.key a ≡ some n
  has_key-some n a h = go (r.key a) h
    where
      go : (k : Option ℕ) → is_key n k ≡ true → k ≡ some n
      go none h = ground arith
      go (some m) h = ground arith

  pub has_key_of : (n : ℕ) (a : A) → r.key a ≡ some n → has_key r n a ≡ true
  has_key_of n a h = rw h (ground arith)

  pub find_key-has_key :
      (n : ℕ) (l : List A) {a : A} → find_key r n l ≡ some a → has_key r n a ≡ true
  unfolding find_key
  find_key-has_key n [] h = ground arith
  find_key-has_key n (b ∷ l) {a} h = ground (arith, find_key-has_key n l {a = a})

  any-replace_key :
      (p : A → Bool) (n : ℕ) (b : A) (l : List A)
      → any p l ≡ false
      → p b ≡ false
      → any p (replace_key r n b l) ≡ false
  unfolding any replace_key
  any-replace_key p n b [] h k = refl
  any-replace_key p n b (a ∷ l) h k = ground (arith, any-replace_key p n b l)

  -- A row of a key, and another to stand in its place.
  any-conflicts :
      (n : ℕ) (a b : A) (l : List A)
      → r.key a ≡ some n
      → r.key b ≡ some n
      → any (conflicts r a) l ≡ false
      → any (λ c. not (has_key r n c) && r.clashes b c) l ≡ false
      → any (conflicts r b) l ≡ false
  unfolding any
  any-conflicts n a b [] p q h k = refl
  any-conflicts n a b (c ∷ l) p q h k = ground (arith, any-conflicts n a b l p q)

module _ {A : Type 0} (r : Row A) (law : Lawful r) where
  pub is_table-append :
      (next : ℕ) (a : A) (l : List A)
      → is_table r next l ≡ true
      → any (r.clashes a) l ≡ false
      → is_table r (suc next) (l ++ (r.with_key next a ∷ [])) ≡ true
  unfolding any is_table
  is_table-append next a [] h k = ground (arith, law.key-with_key next a)
  is_table-append next a (b ∷ l) h k = ground (
    arith,
    is_table-append next a l,
    any-append (conflicts r b) l (r.with_key next a ∷ []),
    law.key-with_key next a,
    law.clashes-with_key next a b,
    law.clashes_sym b (r.with_key next a),
  )

  pub is_table-replace_key :
      (next n : ℕ) (b : A) (l : List A)
      → r.key b ≡ some n
      → is_table r next l ≡ true
      → any (λ c. not (has_key r n c) && r.clashes b c) l ≡ false
      → is_table r next (replace_key r n b l) ≡ true
  unfolding any is_table replace_key
  is_table-replace_key next n b [] p h k = refl
  is_table-replace_key next n b (a ∷ l) p h k = ground (
    arith,
    is_table-replace_key next n b l,
    any-conflicts r n a b l,
    has_key-some r n a,
    any-replace_key r (conflicts r a) n b l,
    law.clashes_sym a b,
  )

  insert_row-is_table :
      (next : ℕ) (a : A) (l : List A) {w : Saved r}
      → is_table r next l ≡ true
      → insert_row r a l next ≡ ok w
      → is_table r w.next w.rows ≡ true
  unfolding insert_row
  insert_row-is_table next a l {w} h s = ground (arith, is_table-append next a l)

  update_row-is_table :
      (n : ℕ) (old a : A) (l : List A) (next : ℕ) {w : Saved r}
      → r.key a ≡ some n
      → r.key old ≡ some n
      → is_table r next l ≡ true
      → update_row r n old a l next ≡ ok w
      → is_table r w.next w.rows ≡ true
  unfolding update_row
  update_row-is_table n old a l next {w} p q h s =
      ground (arith, law.key-written n old a p q, is_table-replace_key next n (r.written old a) l)

  -- Save of an entity, new or stored, keeps a table in which every row has its key below the
  -- next one and no two rows have the same key or break a unique constraint.
  pub save_row-is_table :
      (a : A) (l : List A) (next : ℕ) {w : Saved r}
      → is_table r next l ≡ true
      → save_row r a l next ≡ ok w
      → is_table r w.next w.rows ≡ true
  unfolding save_row
  save_row-is_table a l next {w} h s = go (r.key a) refl s
    where
      go :
          (k : Option ℕ)
          → r.key a ≡ k
          → elim k [
            | none ↦ insert_row r a l next
            | some n ↦ elim (find_key r n l) [
              | none ↦ err (not_found "Not Found")
              | some old ↦ update_row r n old a l next
            ]
          ]
            ≡ ok w
          → is_table r w.next w.rows ≡ true
      go none e s = insert_row-is_table next a l h s
      go (some n) e s = stored (find_key r n l) refl s
        where
          stored :
              (o : Option A)
              → find_key r n l ≡ o
              → elim o [
                | none ↦ err (not_found "Not Found")
                | some old ↦ update_row r n old a l next
              ]
                ≡ ok w
              → is_table r w.next w.rows ≡ true
          stored none f s = ground arith
          stored (some old) f s =
              update_row-is_table n old a l next e (has_key-some r n old (find_key-has_key r n l f))
                h s
