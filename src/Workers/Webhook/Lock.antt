-- ===== src/Workers/Webhook/Lock.antt =====
-- The lock of an event, as a job takes it and gives it back.
use billing_core.Shared.{◌≡◌, refl, ap, ◌∙◌, Bool, true, false, Option, none, some, arith}
use billing_core.Shared.Texts.{Text, text_eq, text_eq_refl, text_eq_iff}
use billing_core.Shared.Dict.{lookup, insert, lookup-insert, lookup-erase}
use billing_core.Shared.Actions.{ok, pure, ◌>>=◌}
use billing_core.Workers.Redis.{Redis, set_nx, get, delete}
use billing_core.Workers.Webhook.{lock_key, acquire_lock, release_lock}

-- The job that holds the lock of an event.
unfoldable pub holder : Text → Redis → Option Text
holder event_id r = lookup (lock_key event_id) r.locks

-- What a job finds, which asks for the lock.
pub acquire_lock-free :
    (event_id job_id : Text) (r : Redis)
    → holder event_id r ≡ none
    → acquire_lock event_id job_id r
      ≡ (ok true, record r { locks = insert (lock_key event_id) job_id r.locks })
unfolding acquire_lock holder set_nx get ◌>>=◌ pure
acquire_lock-free event_id job_id r h = rw h refl

pub acquire_lock-held :
    (event_id job_id : Text) (r : Redis) {j : Text}
    → holder event_id r ≡ some j
    → acquire_lock event_id job_id r ≡ (ok (text_eq j job_id), r)
unfolding acquire_lock holder set_nx get ◌>>=◌ pure
acquire_lock-held event_id job_id r h = rw (h, h) refl

pub acquire_lock-answers :
    (event_id job_id : Text) (r : Redis) → (b : Bool) × ((acquire_lock event_id job_id r).0 ≡ ok b)
acquire_lock-answers event_id job_id r = go (holder event_id r) refl
  where
    go :
        (o : Option Text)
        → holder event_id r ≡ o
        → (b : Bool) × ((acquire_lock event_id job_id r).0 ≡ ok b)
    go none h = (true, ap (λ x. x.0) (acquire_lock-free event_id job_id r h))
    go (some j) h = (text_eq j job_id, ap (λ x. x.0) (acquire_lock-held event_id job_id r h))

pub holder-insert :
    (event_id job_id : Text) (r : Redis)
    → holder event_id (record r { locks = insert (lock_key event_id) job_id r.locks }) ≡ some job_id
unfolding holder
holder-insert event_id job_id r =
    lookup-insert (lock_key event_id) (lock_key event_id) job_id r.locks
    ∙ ground (arith, text_eq_refl (lock_key event_id))

pub holder-release :
    (event_id : Text) (r : Redis) → holder event_id (release_lock event_id r).1 ≡ none
unfolding holder release_lock delete pure
holder-release event_id r =
    lookup-erase (lock_key event_id) (lock_key event_id) r.locks
    ∙ ground (arith, text_eq_refl (lock_key event_id))

-- A job that was given the lock holds it.
pub acquire_lock-holder :
    (event_id job_id : Text) (r : Redis)
    → (acquire_lock event_id job_id r).0 ≡ ok true
    → holder event_id (acquire_lock event_id job_id r).1 ≡ some job_id
acquire_lock-holder event_id job_id r = go (holder event_id r) refl
  where
    go :
        (o : Option Text)
        → holder event_id r ≡ o
        → (acquire_lock event_id job_id r).0 ≡ ok true
        → holder event_id (acquire_lock event_id job_id r).1 ≡ some job_id
    go none h k = rw (acquire_lock-free event_id job_id r h) (holder-insert event_id job_id r)
    go (some j) h k =
        let e = acquire_lock-held event_id job_id r h in
        rw e (h ∙ ground (arith, text_eq_iff j job_id, ap (λ x. x.0) e))

-- A job that is not given the lock leaves everything as it is, and another job has it.
pub acquire_lock-refused :
    (event_id job_id : Text) (r : Redis)
    → (acquire_lock event_id job_id r).0 ≡ ok false
    → ((acquire_lock event_id job_id r).1 ≡ r)
      × ((j : Text) × (holder event_id r ≡ some j) × (text_eq j job_id ≡ false))
acquire_lock-refused event_id job_id r = go (holder event_id r) refl
  where
    go :
        (o : Option Text)
        → holder event_id r ≡ o
        → (acquire_lock event_id job_id r).0 ≡ ok false
        → ((acquire_lock event_id job_id r).1 ≡ r)
          × ((j : Text) × (holder event_id r ≡ some j) × (text_eq j job_id ≡ false))
    go none h k = ground (arith, ap (λ x. x.0) (acquire_lock-free event_id job_id r h))
    go (some j) h k =
        let e = acquire_lock-held event_id job_id r h in
        (ap (λ x. x.1) e, (j, h, ground (arith, ap (λ x. x.0) e)))
