-- ===== src/Store/Tables.antt =====
-- What a repository does to the rows of its table: app/infra/repo. `key` is the primary key, which
-- the database gives; `clashes` says that two rows break a unique constraint; `written` is the row
-- that `save` makes of the stored row and the entity; `to_domain` builds the entity of a row by its
-- constructor, which may raise.
pub mod Uniqueness
pub mod Lookups
pub mod Found
use billing_core.Shared.{
  ℕ, suc, Bool, false, not, ◌&&◌, List, [], ◌∷◌, ◌++◌, Option, none, some, ◌==◌, if◌then◌else◌, any,
}
use billing_core.Shared.Actions.{Result, ok, err, not_found, integrity, multiple_rows}

pub record Row (A : Type 0) : Type 0 where
  pub key : A → Option ℕ
  pub with_key : ℕ → A → A
  pub clashes : A → A → Bool
  pub written : A → A → A
  pub to_domain : A → Result A

abbrev pub is_key : ℕ → Option ℕ → Bool
is_key n none = false
is_key n (some m) = m == n

-- `result.scalars().one_or_none()`
unfoldable pub one_or_none : {A : Type 0} → List A → Result (Option A)
one_or_none [] = ok none
one_or_none (a ∷ []) = ok (some a)
one_or_none (a ∷ b ∷ l) = err multiple_rows

module _ {A : Type 0} (r : Row A) where
  abbrev pub has_key : ℕ → A → Bool
  has_key n a = is_key n (r.key a)

  -- `session.get(Model, id)`
  unfoldable pub find_key : ℕ → List A → Option A
  find_key n [] = none
  find_key n (a ∷ l) = let rest = find_key n l in if has_key n a then some a else rest

  -- The rows with the one of a key written anew.
  unfoldable pub replace_key : ℕ → A → List A → List A
  replace_key n b [] = []
  replace_key n b (a ∷ l) = let rest = replace_key n b l in if has_key n a then b ∷ l else a ∷ rest

  -- What `save` gives: the row, the rows, and the next key that is free.
  pub record Saved : Type 0 where
    pub saved : A
    pub rows : List A
    pub next : ℕ

  -- `session.add(new)` and `flush`
  unfoldable pub insert_row : A → List A → ℕ → Result Saved
  unfolding any
  insert_row a l next =
      if any (r.clashes a) l
      then err integrity
      else ok (record {
        saved = r.with_key next a;
        rows = l ++ (r.with_key next a ∷ []);
        next = suc next;
      })

  -- The assignments to the stored row and `flush`
  unfoldable pub update_row : ℕ → A → A → List A → ℕ → Result Saved
  unfolding any replace_key
  update_row n old a l next =
      let new = r.written old a in
      if any (λ b. not (has_key n b) && r.clashes new b) l
      then err integrity
      else ok (record { saved = new; rows = replace_key n new l; next = next })

  -- `save`, over the key of the entity and what is stored under it.
  unfoldable pub save_row : A → List A → ℕ → Result Saved
  unfolding insert_row update_row find_key
  save_row a l next = elim (r.key a) [
    | none ↦ insert_row a l next
    | some n ↦ elim (find_key n l) [
      | none ↦ err (not_found "Not Found")
      | some old ↦ update_row n old a l next
    ]
  ]
