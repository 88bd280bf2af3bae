-- ===== src/Store/Tables/Found.antt =====
-- The row that a table has under a key.
use billing_core.Shared.{
  ℕ, suc, ◌≡◌, refl, ap, subst, ◌∙◌, if◌then◌else◌, Bool, true, false, not, ◌&&◌, ◌++◌, List, [],
  ◌∷◌, Option, none, some, select, any, arith,
}
use billing_core.Shared.Actions.{ok, err, not_found, integrity}
use billing_core.Store.Tables.{
  Row, Saved, insert_row, update_row, save_row, find_key, replace_key, has_key,
}
use billing_core.Store.Tables.Uniqueness.{Lawful, is_table, conflicts, has_key_of, has_key-some}
use billing_core.Store.Tables.Lookups.{IsUnique, select-none}

module _ {A : Type 0} (r : Row A) where
  any-weaker :
      (n : ℕ) (a : A) (l : List A)
      → any (conflicts r a) l ≡ false
      → any (λ b. not (has_key r n b) && r.clashes a b) l ≡ false
  unfolding any
  any-weaker n a [] h = refl
  any-weaker n a (b ∷ l) h = ground (arith, any-weaker n a l)

  pub find_key-any :
      (p : A → Bool) (n : ℕ) (l : List A) {a : A}
      → find_key r n l ≡ some a
      → any p l ≡ false
      → p a ≡ false
  unfolding find_key any
  find_key-any p n [] f h = ground arith
  find_key-any p n (b ∷ l) {a} f h = ground (arith, find_key-any p n l {a = a})

  -- The row of a key clashes with no other.
  pub no_clash :
      (law : Lawful r) (next n : ℕ) (l : List A) {old : A}
      → is_table r next l ≡ true
      → find_key r n l ≡ some old
      → any (λ b. not (has_key r n b) && r.clashes old b) l ≡ false
  unfolding is_table find_key any
  no_clash law next n [] h f = refl
  no_clash law next n (a ∷ l) {old} h f = ground (
    arith,
    no_clash law next n l {old = old},
    any-weaker n a l,
    find_key-any (conflicts r a) n l {a = old},
    law.clashes_sym a old,
  )

  pub find_key-replace_key :
      (n : ℕ) (l : List A) {old b : A}
      → find_key r n l ≡ some old
      → r.key b ≡ some n
      → find_key r n (replace_key r n b l) ≡ some b
  unfolding find_key replace_key
  find_key-replace_key n [] f k = ground arith
  find_key-replace_key n (a ∷ l) {old} {b} f k =
      ground (arith, find_key-replace_key n l {old = old} {b = b}, has_key_of r n b k)

  -- The row of a key that passes a test of a unique column is the only one that does.
  pub select-found :
      (p : A → Bool) (next n : ℕ) (l : List A) {a : A}
      → IsUnique r p
      → is_table r next l ≡ true
      → find_key r n l ≡ some a
      → p a ≡ true
      → select p l ≡ a ∷ []
  unfolding find_key select is_table
  select-found p next n [] u t f h = ground arith
  select-found p next n (b ∷ l) {a} u t f h = ground (
    arith,
    select-found p next n l {a = a} u,
    select-none r p b l u,
    find_key-any (conflicts r b) n l {a = a},
    u.at b a,
  )

  find_key-append :
      (next : ℕ) (l : List A) (a : A)
      → is_table r next l ≡ true
      → r.key a ≡ some next
      → find_key r next (l ++ (a ∷ [])) ≡ some a
  unfolding find_key is_table
  find_key-append next [] a t k = ground (arith, has_key_of r next a k)
  find_key-append next (b ∷ l) a t k =
      ground (arith, find_key-append next l a, has_key-some r next b)

  -- What `save` has stored is under its key, and is what was given but for the key, if the stored
  -- row takes every field of the entity.
  pub record Stored (a : A) (w : Saved r) : Type 0 where
    pub key : ℕ
    pub found : find_key r key w.rows ≡ some w.saved
    pub keeps : (p : A → Bool) → ((n : ℕ) → p (r.with_key n a) ≡ p a) → p w.saved ≡ p a

  same_saved : (a : A) {v w : Saved r} → ok v ≡ ok w → Stored a v → Stored a w
  same_saved a h = subst (Stored a) (ground (arith, h))

  module _ (law : Lawful r) (a : A) (l : List A) (next : ℕ) {w : Saved r}
      (whole : (old : A) → r.written old a ≡ a) (t : is_table r next l ≡ true) where
    insert_row-Stored : insert_row r a l next ≡ ok w → Stored a w
    unfolding insert_row
    insert_row-Stored = go (any (r.clashes a) l)
      where
        go :
            (b : Bool)
            → (if b
                then err integrity
                else ok (record {
                  saved = r.with_key next a;
                  rows = l ++ (r.with_key next a ∷ []);
                  next = suc next;
                }))
              ≡ ok w
            → Stored a w
        go true h = ground (arith, h)
        go false h = same_saved a h (record {
          key = next;
          found = find_key-append next l _ t (law.key-with_key next a);
          keeps = λ p q. q next;
        })

    update_row-Stored :
        (n : ℕ) (old : A)
        → r.key a ≡ some n
        → find_key r n l ≡ some old
        → update_row r n old a l next ≡ ok w
        → Stored a w
    unfolding update_row
    update_row-Stored n old k f =
        go (any (λ b. not (has_key r n b) && r.clashes (r.written old a) b) l)
      where
        go :
            (b : Bool)
            → (if b
                then err integrity
                else ok (record {
                  saved = r.written old a;
                  rows = replace_key r n (r.written old a) l;
                  next = next;
                }))
              ≡ ok w
            → Stored a w
        go true h = ground (arith, h)
        go false h = same_saved a h (record {
          key = n;
          found = find_key-replace_key n l f (ap r.key (whole old) ∙ k);
          keeps = λ p q. ap p (whole old);
        })

    pub save_row-Stored : save_row r a l next ≡ ok w → Stored a w
    unfolding save_row
    save_row-Stored = go (r.key a) refl
      where
        under :
            (n : ℕ) (o : Option A)
            → r.key a ≡ some n
            → find_key r n l ≡ o
            → elim o [ none ↦ err (not_found "Not Found") | some old ↦ update_row r n old a l next ]
              ≡ ok w
            → Stored a w
        under n none k f h = ground (arith, h)
        under n (some old) k f h = update_row-Stored n old k f h

        go :
            (k : Option ℕ)
            → r.key a ≡ k
            → elim k [
              | none ↦ insert_row r a l next
              | some n ↦ elim (find_key r n l) [
                | none ↦ err (not_found "Not Found")
                | some old ↦ update_row r n old a l next
              ]
            ]
              ≡ ok w
            → Stored a w
        go none e h = insert_row-Stored h
        go (some n) e h = under n (find_key r n l) e refl h
