-- ===== src/Shared/Actions.antt =====
-- Methods that read and write an object, and may raise. What was written before a raise stays
-- written, so the object comes back beside the error too.
use Prim.Native.Nat.{ℕ}
use Prim.Native.String.{String}
use mathlib.Core.Bool.{Bool, true, false}
use mathlib.Core.Option.{Option, none, some}
use billing_core.Shared.Texts.{Text}
use billing_core.Shared.Tests.{if◌then◌else◌}

-- The exceptions, by class. `DomainError` and `NotFoundError` carry the message of the source.
pub data Error : Type 0 where
  domain : String → Error
  not_found : String → Error
  value_error : String → Error
  type_error : String → Error
  key_error : Error
  -- a unique constraint of the database, or more rows than one where one is asked for
  integrity : Error
  multiple_rows : Error
  -- the connection to the database
  database : Error
  -- an error answer of a gateway: the HTTP status and the body
  gateway_api : ℕ → Text → Error
  -- a request that may have reached the gateway, and one that was not sent
  request_failed : Error
  request_unsent : Error

-- `isinstance(e, DomainError)`
abbrev pub is_domain_error : Error → Bool
is_domain_error (domain _) = true
is_domain_error (not_found _) = true
is_domain_error _ = false

pub data Result {ℓ} (A : Type ℓ) : Type ℓ where
  ok : A → Result A
  err : Error → Result A

abbrev pub Action {ℓ} : Type ℓ → Type ℓ → Type ℓ
Action S A = S → Result A × S

module _ {ℓ} {S A : Type ℓ} where
  unfoldable pub pure : A → Action S A
  pure a s = (ok a, s)

  unfoldable pub raise : Error → Action S A
  raise e s = (err e, s)

  unfoldable pub lift : Result A → Action S A
  lift r s = (r, s)

  unfoldable pub gets : (S → A) → Action S A
  gets f s = (ok (f s), s)

module _ {ℓ} {S A B : Type ℓ} where
  abbrev pub continue : Result A → (A → Action S B) → Action S B
  continue (ok a) f s = f a s
  continue (err e) f s = (err e, s)

  infixl 5 ◌>>=◌ ◌>>◌
  unfoldable pub ◌>>=◌ : Action S A → (A → Action S B) → Action S B
  unfolding pure raise lift gets
  ◌>>=◌ m f s = let (r, s') = m s in continue r f s'

  abbrev pub ◌>>◌ : Action S A → Action S B → Action S B
  m >> n = m >>= λ _. n

-- `if test: raise e`
unfoldable pub raise_if : {S : Type 0} → Bool → Error → Action S (Unit {0})
raise_if b e s = (if b then err e else ok tt, s)

-- An assignment to the object.
unfoldable pub modify : {S : Type 0} → (S → S) → Action S (Unit {0})
modify f s = (ok tt, f s)

-- A method call on an object that the caller holds in a variable: the variable is rebound, and
-- a raise passes on.
unfoldable pub call {ℓ} : {S P A : Type ℓ} → Action P A → P → Action S (A × P)
call m p s = let (r, p') = m p in continue r (λ a t. (ok (a, p'), t)) s

-- `if x is None: m; else: f`
module _ {ℓ} {S A B : Type ℓ} where
  unfoldable pub cases : Option A → Action S B → (A → Action S B) → Action S B
  cases none m f = m
  cases (some a) m f = f a

-- `try: m; except Exception as e: h`
module _ {ℓ} {S A : Type ℓ} where
  abbrev pub handled : Result A → (Error → Action S A) → Action S A
  handled (ok a) h s = (ok a, s)
  handled (err e) h s = h e s

  unfoldable pub attempt : Action S A → (Error → Action S A) → Action S A
  attempt m h s = let (r, t) = m s in handled r h t

-- `try: a = m; except Exception as e: h; else: f`
module _ {ℓ} {S A B : Type ℓ} where
  abbrev pub resumed : Result A → (Error → Action S B) → (A → Action S B) → Action S B
  resumed (ok a) h f s = f a s
  resumed (err e) h f s = h e s

  unfoldable pub try_then : Action S A → (Error → Action S B) → (A → Action S B) → Action S B
  try_then m h f s = let (r, t) = m s in resumed r h f t

-- `try: m; finally: n`
module _ {ℓ} {S A : Type ℓ} {U : Type ℓ} where
  unfoldable pub finally : Action S A → Action S U → Action S A
  finally m n s = let (r, t) = m s in let (u, t') = n t in continue u (λ _ s. (r, s)) t'
