-- ===== src/Store/Answers.antt =====
-- What holds of the value of an action that does not raise: one rule for each way to build one.
use billing_core.Shared.{◌≡◌, refl, subst, Bool, true, false, arith, if◌then◌else◌}
use billing_core.Shared.Actions.{
  Error, Result, ok, err, Action, pure, raise, call, continue, resumed, try_then, ◌>>=◌,
}
use billing_core.Store.Session.{Session}

pub record Yields {A : Type 0} (P : A → Type 0) (m : Action Session A) : Type 0 where
  pub at : (s : Session) {a : A} → (m s).0 ≡ ok a → P a

module _ {A : Type 0} (P : A → Type 0) where
  pub Yields-pure : (a : A) → P a → Yields P (pure a)
  unfolding pure
  Yields-pure a p = record { at = λ s h. subst P (same h) p }
    where
      same : {a b : A} → ok a ≡ ok b → a ≡ b
      same h = ground arith

  pub Yields-raise : (e : Error) → Yields P (raise e)
  unfolding raise
  Yields-raise e = record { at = λ s h. absurd h }
    where
      absurd : {a : A} {B : Type 0} → err e ≡ ok a → B
      absurd h = ground arith

  pub Yields-if :
      (b : Bool) (m n : Action Session A)
      → (b ≡ true → Yields P m)
      → (b ≡ false → Yields P n)
      → Yields P (if b then m else n)
  Yields-if true m n p q = p refl
  Yields-if false m n p q = q refl

module _ {A B : Type 0} (Q : A → Type 0) (P : B → Type 0) where
  pub Yields-bind :
      (m : Action Session A) (f : A → Action Session B)
      → Yields Q m
      → ((a : A) → Q a → Yields P (f a))
      → Yields P (m >>= f)
  unfolding ◌>>=◌
  Yields-bind m f q p = record { at = λ s h. go (m s).0 (m s).1 (λ a e. q.at s e) h }
    where
      go :
          (r : Result A) (t : Session) {b : B}
          → ((a : A) → r ≡ ok a → Q a)
          → (continue r f t).0 ≡ ok b
          → P b
      go (ok a) t q h = (p a (q a refl)).at t h
      go (err e) t q h = ground arith

  pub Yields-try_then :
      (m : Action Session A) (h : Error → Action Session B) (f : A → Action Session B)
      → Yields Q m
      → ((e : Error) → Yields P (h e))
      → ((a : A) → Q a → Yields P (f a))
      → Yields P (try_then m h f)
  unfolding try_then
  Yields-try_then m h f q k p = record { at = λ s e. go (m s).0 (m s).1 (λ a e. q.at s e) e }
    where
      go :
          (r : Result A) (t : Session) {b : B}
          → ((a : A) → r ≡ ok a → Q a)
          → (resumed r h f t).0 ≡ ok b
          → P b
      go (ok a) t q e = (p a (q a refl)).at t e
      go (err x) t q e = (k x).at t e

-- A method that is called on an object: what it gives, and the object after it.
pub Yields-call :
    {A B : Type 0} (P : B × A → Type 0) (m : Action A B) (a : A)
    → ((b : B) (a' : A) → m a ≡ (ok b, a') → P (b, a'))
    → Yields P (call m a)
unfolding call
Yields-call {A = A} {B = B} P m a h = record { at = λ s e. go (m a).0 (m a).1 s refl e }
  where
    go :
        (r : Result B) (a' : A) (s : Session) {x : B × A}
        → m a ≡ (r, a')
        → (continue {B = B × A} r (λ b t. (ok (b, a'), t)) s).0 ≡ ok x
        → P x
    go (ok b) a' s e q = subst P (same q) (h b a' e)
      where
        same : {x y : B × A} → ok x ≡ ok y → x ≡ y
        same q = ground arith
    go (err x) a' s e q = ground arith

-- Of an action of which nothing is asked.
pub Yields-any : {A : Type 0} (m : Action Session A) → Yields (λ a. Unit) m
Yields-any m = record { at = λ s h. tt }

module _ {A B : Type 0} (P : B → Type 0) where
  pub Yields-after :
      (m : Action Session A) (f : A → Action Session B)
      → ((a : A) → Yields P (f a))
      → Yields P (m >>= f)
  Yields-after m f p = Yields-bind (λ a. Unit) P m f (Yields-any m) λ a u. p a

pub Yields-either :
    {B : Type 0} (P : B → Type 0) (b : Bool) (m n : Action Session B)
    → Yields P m
    → Yields P n
    → Yields P (if b then m else n)
Yields-either P b m n p q = Yields-if P b m n (λ h. p) (λ h. q)
