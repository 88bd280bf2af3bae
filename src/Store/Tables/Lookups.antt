-- ===== src/Store/Tables/Lookups.antt =====
-- What a lookup by a unique column gives on a table that keeps its constraints, after a row was
-- written too: app/infra/repo.
use billing_core.Shared.{
  ℕ, ◌≡◌, ◌≢◌, refl, Bool, true, false, List, [], ◌∷◌, Option, none, some, select, any, arith,
}
use billing_core.Shared.Actions.{err, multiple_rows}
use billing_core.Store.Tables.{Row, one_or_none, find_key, replace_key}
use billing_core.Store.Tables.Uniqueness.{is_table, conflicts, any-select, has_key-some, has_key_of}

module _ {A : Type 0} (r : Row A) where
  -- A test of a unique column passes for no two rows that are not in conflict.
  pub record IsUnique (p : A → Bool) : Type 0 where
    pub at : (a b : A) → p a ≡ true → p b ≡ true → r.clashes a b ≡ true

  pub select-none :
      (p : A → Bool) (a : A) (l : List A)
      → IsUnique p
      → p a ≡ true
      → any (conflicts r a) l ≡ false
      → select p l ≡ []
  unfolding select any
  select-none p a [] u h k = refl
  select-none p a (b ∷ l) u h k = ground (arith, select-none p a l u, u.at a b)

  -- On a table that keeps its constraints, a lookup by a unique column never meets more rows
  -- than one.
  pub one_or_none_unique :
      (p : A → Bool) (next : ℕ) (l : List A)
      → IsUnique p
      → is_table r next l ≡ true
      → one_or_none (select p l) ≢ err multiple_rows
  unfolding one_or_none select is_table
  one_or_none_unique p next [] u h = ground arith
  one_or_none_unique p next (a ∷ l) u h =
      ground (arith, one_or_none_unique p next l, select-none p a l u)

  -- The row of a test is found by its key.
  pub find_key-select :
      (p : A → Bool) (next n : ℕ) (l : List A) (a : A)
      → is_table r next l ≡ true
      → select p l ≡ a ∷ []
      → r.key a ≡ some n
      → find_key r n l ≡ some a
  unfolding find_key select is_table any
  find_key-select p next n [] a h s k = ground arith
  find_key-select p next n (b ∷ l) a h s k = ground (
    arith,
    find_key-select p next n l a,
    has_key-some r n b,
    has_key_of r n a k,
    any-select p (conflicts r b) l {a = a} {m = []},
  )

  pub select-replace_key :
      (p : A → Bool) (next n : ℕ) (l : List A) (a b : A)
      → is_table r next l ≡ true
      → select p l ≡ a ∷ []
      → r.key a ≡ some n
      → p b ≡ true
      → select p (replace_key r n b l) ≡ b ∷ []
  unfolding replace_key select is_table any
  select-replace_key p next n [] a b h s k q = ground arith
  select-replace_key p next n (c ∷ l) a b h s k q = ground (
    arith,
    select-replace_key p next n l a b,
    has_key-some r n c,
    has_key_of r n a k,
    any-select p (conflicts r c) l {a = a} {m = []},
  )

  pub select-key :
      (p : A → Bool) (next : ℕ) (l : List A) (a : A)
      → is_table r next l ≡ true
      → select p l ≡ a ∷ []
      → (n : ℕ) × (r.key a ≡ some n)
  unfolding select is_table
  select-key p next [] a h s = ground arith
  select-key p next (b ∷ l) a h s =
      go (p b) refl (r.key b) refl λ t. select-key p next l a (ground arith) t
    where
      go :
          (c : Bool)
          → p b ≡ c
          → (k : Option ℕ) → r.key b ≡ k
          → (select p l ≡ a ∷ [] → (n : ℕ) × (r.key a ≡ some n))
          → (n : ℕ) × (r.key a ≡ some n)
      go true e none f rest = ground arith
      go true e (some n) f rest = (n, ground arith)
      go false e k f rest = rest (ground arith)

pub select-passes :
    {A : Type 0} (p : A → Bool) (l : List A) {a : A} {m : List A} → select p l ≡ a ∷ m → p a ≡ true
unfolding select
select-passes p [] h = ground arith
select-passes p (b ∷ l) {a} {m} h = ground (arith, select-passes p l {a = a} {m = m})
