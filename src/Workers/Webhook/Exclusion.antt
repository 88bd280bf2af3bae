-- ===== src/Workers/Webhook/Exclusion.antt =====
-- Jobs that ask for the lock of one event, work and end, in any order.
use billing_core.Shared.{
  ◌≡◌, refl, sym, ◌∙◌, Bool, true, false, ◌⊎◌, inl, inr, List, [], ◌∷◌, some, arith, any, length,
  if◌then◌else◌, ap,
}
use billing_core.Shared.Texts.{Text, text_eq, text_eq_iff}
use billing_core.Shared.Actions.{ok}
use billing_core.Workers.Redis.{Redis}
use billing_core.Workers.Webhook.{acquire_lock, release_lock}
use billing_core.Workers.Webhook.Lock.{
  holder, acquire_lock-held, acquire_lock-holder, acquire_lock-refused,
}

-- Redis, and the jobs that are at work on the event.
pub record Scene : Type 0 where
  pub redis : Redis
  pub working : List Text

-- The jobs but one.
unfoldable pub without : Text → List Text → List Text
without j [] = []
without j (i ∷ l) = let rest = without j l in if text_eq i j then rest else i ∷ rest

abbrev pub works : Text → List Text → Bool
works j l = any (λ i. text_eq i j) l

module _ (event_id : Text) where
  -- One thing that happens. A job does not run twice at once, the lock does not expire while a
  -- job is at work, and what else is done in Redis leaves the lock alone.
  pub data Step : Scene → Scene → Type 0 where
    enters :
        (s : Scene) (j : Text)
        → works j s.working ≡ false
        → (acquire_lock event_id j s.redis).0 ≡ ok true
        → Step s (record { redis = (acquire_lock event_id j s.redis).1; working = j ∷ s.working })
    is_refused :
        (s : Scene) (j : Text)
        → (acquire_lock event_id j s.redis).0 ≡ ok false
        → Step s (record s { redis = (acquire_lock event_id j s.redis).1 })
    releases :
        (s : Scene) (j : Text)
        → works j s.working ≡ true
        → Step s
            (record { redis = (release_lock event_id s.redis).1; working = without j s.working })
    retries_later :
        (s : Scene) (j : Text)
        → works j s.working ≡ true
        → Step s (record s { working = without j s.working })
    goes_on :
        (s : Scene) (r : Redis)
        → holder event_id r ≡ holder event_id s.redis
        → Step s (record s { redis = r })

  pub data Reachable : Scene → Type 0 where
    starts : (r : Redis) → Reachable (record { redis = r; working = [] })
    steps : (s t : Scene) → Reachable s → Step s t → Reachable t

  -- No job is at work, or one that has the lock.
  abbrev Exclusive : Scene → Type 0
  Exclusive s =
      (s.working ≡ []) ⊎ ((j : Text) × (s.working ≡ j ∷ []) × (holder event_id s.redis ≡ some j))

  works-one : (i j : Text) (l : List Text) → l ≡ i ∷ [] → works j l ≡ true → without j l ≡ []
  unfolding without any
  works-one i j [] e w = ground arith
  works-one i j (k ∷ []) e w = ground arith
  works-one i j (k ∷ m ∷ l) e w = ground arith

  works-none : (j : Text) (l : List Text) → l ≡ [] → works j l ≡ false
  unfolding any
  works-none j [] e = refl
  works-none j (k ∷ l) e = ground arith

  works-eq : (i j : Text) (l : List Text) → l ≡ i ∷ [] → works j l ≡ text_eq i j
  unfolding any
  works-eq i j l e = rw e (ground arith)

  step-Exclusive : {s t : Scene} → Step s t → Exclusive s → Exclusive t
  step-Exclusive (enters s j f a) (inl e) =
      inr (j, ap (λ l. j ∷ l) e, acquire_lock-holder event_id j s.redis a)
  step-Exclusive (enters s j f a) (inr (i, e, h)) =
      ground
        (arith, works-eq i j s.working e, ap (λ x. x.0) (acquire_lock-held event_id j s.redis h))
  step-Exclusive (is_refused s j a) (inl e) = inl e
  step-Exclusive (is_refused s j a) (inr (i, e, h)) =
      inr (i, e, ap (holder event_id) (acquire_lock-refused event_id j s.redis a).0 ∙ h)
  step-Exclusive (releases s j f) (inl e) = ground (arith, works-none j s.working e)
  step-Exclusive (releases s j f) (inr (i, e, h)) = inl (works-one i j s.working e f)
  step-Exclusive (retries_later s j f) (inl e) = ground (arith, works-none j s.working e)
  step-Exclusive (retries_later s j f) (inr (i, e, h)) = inl (works-one i j s.working e f)
  step-Exclusive (goes_on s r e) (inl k) = inl k
  step-Exclusive (goes_on s r e) (inr (i, k, h)) = inr (i, k, e ∙ h)

  Reachable-Exclusive : {s : Scene} → Reachable s → Exclusive s
  Reachable-Exclusive (starts r) = inl refl
  Reachable-Exclusive (steps s t p q) = step-Exclusive q (Reachable-Exclusive p)

  -- In every state that is reached when jobs ask for the lock of one event, work and end, in any
  -- order, a job that is at work is the only one, and the lock is its own; this holds as long as
  -- a job does not run twice at once, the lock does not expire while a job is at work, and
  -- nothing else writes the lock.
  pub Reachable-exclusion :
      {s : Scene} (j : Text)
      → Reachable s
      → works j s.working ≡ true
      → (length s.working ≡ 1) × (holder event_id s.redis ≡ some j)
  Reachable-exclusion {s} j p w = go (Reachable-Exclusive p)
    where
      go : Exclusive s → (length s.working ≡ 1) × (holder event_id s.redis ≡ some j)
      go (inl e) = ground (arith, works-none j s.working e)
      go (inr (i, e, h)) =
          (ap length e, h ∙ ap some ((text_eq_iff i j).0 (sym (works-eq i j s.working e) ∙ w)))
