-- ===== src/Workers/Webhook/Entry.antt =====
-- `process_webhook` from its start: the lock of the event before and after it.
use billing_core.Shared.{
  ◌≡◌, ◌≢◌, ◌⊎◌, inl, inr, subst, refl, ap, sym, ◌∙◌, true, false, [], none, some,
}
use billing_core.Shared.Texts.{Text, text_eq_ne, text_eq_refl, upper}
use billing_core.Shared.Json.{Json}
use billing_core.Shared.Actions.{ok, pure, lift, try_then, ◌>>=◌, ◌>>◌}
use billing_core.Domain.Enums.{GatewayProvider, provider_named}
use billing_core.UseCases.Webhook.Payload.{WebhookPayload, event_id_for}
use billing_core.Workers.Redis.{Redis, update_job_metadata}
use billing_core.Workers.World.{World, Job, duplicate, on_redis}
use billing_core.Workers.Account.{start_job, complete_job}
use billing_core.Workers.Webhook.{
  WebhookJobEnv, acquire_lock, process_event, process_locked, identify, process_webhook,
}
use billing_core.Workers.Webhook.Lock.{
  holder, acquire_lock-free, acquire_lock-held, acquire_lock-holder,
}
use billing_core.Workers.Webhook.Holder.{is_over, left_to, process_event-holder}

module _ (env : WebhookJobEnv) (job : Job) (payload_dict : Json) (provider_str : Text)
    (provider : GatewayProvider) (payload : WebhookPayload) (event_id : Text)
    (named : provider_named (upper provider_str) ≡ ok provider)
    (valid : env.validate payload_dict ≡ ok payload)
    (known : event_id_for payload provider ≡ ok event_id) where
  -- What the job has written when it asks for the lock.
  abbrev started : World → World
  started w = (start_job env.account job [] w).1

  process_webhook-identified :
      (w : World)
      → process_webhook env job payload_dict provider_str w
        ≡ process_locked env job provider payload event_id (started w)
  unfolding process_webhook identify ◌>>=◌ lift pure try_then start_job on_redis update_job_metadata
  process_webhook-identified w = rw (named, valid, known) refl

  abbrev given : World → Redis
  given w = (acquire_lock event_id job.job_id w.redis).1

  process_locked-given :
      (w : World)
      → (acquire_lock event_id job.job_id w.redis).0 ≡ ok true
      → process_locked env job provider payload event_id w
        ≡ process_event env job provider payload event_id (record w { redis = given w })
  unfolding process_locked on_redis ◌>>=◌
  process_locked-given w h = rw h refl

  process_locked-refused :
      (w : World)
      → (acquire_lock event_id job.job_id w.redis).0 ≡ ok false
      → process_locked env job provider payload event_id w
        ≡ (complete_job env.account job >> pure duplicate) (record w { redis = given w })
  unfolding process_locked on_redis ◌>>=◌ pure
  process_locked-refused w h = rw h refl

  started-holder : (w : World) → holder event_id (started w).redis ≡ holder event_id w.redis
  unfolding start_job on_redis update_job_metadata pure holder
  started-holder w = refl

  may_acquire :
      (r : Redis)
      → (holder event_id r ≡ none) ⊎ (holder event_id r ≡ some job.job_id)
      → (acquire_lock event_id job.job_id r).0 ≡ ok true
  may_acquire r (inl h) = ap (λ x. x.0) (acquire_lock-free event_id job.job_id r h)
  may_acquire r (inr h) =
      ap (λ x. x.0) (acquire_lock-held event_id job.job_id r h) ∙ ap ok (text_eq_refl job.job_id)

  -- A job for a valid notification whose event has no lock, or has the one of the job from an
  -- earlier try, leaves the lock free if it returned or raised on its last try, and leaves it to
  -- itself if it is to be tried again: whatever of the database fails.
  pub process_webhook-holder :
      (w : World)
      → (holder event_id w.redis ≡ none) ⊎ (holder event_id w.redis ≡ some job.job_id)
      → holder event_id (process_webhook env job payload_dict provider_str w).1.redis
        ≡ left_to env job (is_over env job (process_webhook env job payload_dict provider_str w).0)
  process_webhook-holder w h =
      rw (process_webhook-identified w, process_locked-given (started w) acquired)
        (process_event-holder env job provider payload event_id _
          (acquire_lock-holder event_id job.job_id (started w).redis acquired))
    where
      acquired : (acquire_lock event_id job.job_id (started w).redis).0 ≡ ok true
      acquired =
          may_acquire (started w).redis
            (subst (λ o. (o ≡ none) ⊎ (o ≡ some job.job_id)) (sym (started-holder w)) h)

  -- A job for a valid notification whose event is locked by another job answers that it is a
  -- duplicate, and leaves the database, the locks, the queue and the dead letters as they were.
  pub process_webhook-duplicate :
      (w : World) {other : Text}
      → holder event_id w.redis ≡ some other
      → other ≢ job.job_id
      → let (r, t) = process_webhook env job payload_dict provider_str w in
        (r ≡ ok duplicate)
        × (t.db ≡ w.db)
        × (t.redis.locks ≡ w.redis.locks)
        × (t.redis.queue ≡ w.redis.queue)
        × (t.redis.dead_letters ≡ w.redis.dead_letters)
  unfolding ◌>>=◌ complete_job start_job on_redis update_job_metadata pure
  process_webhook-duplicate w {other} h o =
      rw (process_webhook-identified w, process_locked-refused (started w) (ap (λ x. x.0) held))
        (rw (ap (λ x. x.1) held) (refl, refl, refl, refl, refl))
    where
      held : acquire_lock event_id job.job_id (started w).redis ≡ (ok false, (started w).redis)
      held =
          acquire_lock-held event_id job.job_id (started w).redis (started-holder w ∙ h)
          ∙ ap (λ b. (ok b, (started w).redis)) (text_eq_ne other job.job_id o)
