-- ===== src/Workers/Webhook/Holder.antt =====
-- Who has the lock of an event when a job that asked for it has ended.
use billing_core.Shared.{
  ℕ, ◌≡◌, refl, ap, sym, ◌∙◌, Bool, true, false, Option, none, some, leb, if◌then◌else◌,
}
use billing_core.Shared.Texts.{Text, lit}
use billing_core.Shared.Actions.{
  Error, Result, ok, err, Action, pure, raise, lift, resumed, try_then, finally, ◌>>=◌,
}
use billing_core.Domain.Enums.{GatewayProvider}
use billing_core.UseCases.Webhook.Payload.{WebhookPayload}
use billing_core.UseCases.Webhook.Steps.{Answer}
use billing_core.Workers.Redis.{delete, update_job_metadata, enqueue_job}
use billing_core.Workers.World.{World, Job, JobAnswer, failed, on_redis, run_session}
use billing_core.Workers.Account.{is_rejection, complete_job, record_failure, reject_job, retry_job}
use billing_core.Workers.Webhook.{
  WebhookJobEnv, release_lock, enqueue_delivery, releases, webhook_failed, event_processed,
  event_failed, process_event, process_in_session,
}
use billing_core.Workers.Account.Ends.{finally-runs, after-runs}
use billing_core.Workers.Account.Reported.{Runs-record_failure}
use billing_core.Workers.Account.Frames.{record_failure-locks}
use billing_core.Workers.Webhook.Lock.{holder, holder-release}

module _ (env : WebhookJobEnv) (job : Job) where
  -- A run after which the queue does not run the job again.
  unfoldable pub is_over : Result (JobAnswer Answer) → Bool
  is_over (ok a) = true
  is_over (err e) = leb env.account.settings.worker_max_tries job.job_try

  abbrev pub left_to : Bool → Option Text
  left_to over = if over then none else some job.job_id

  abbrev failure_of : Error → Bool → Action World Unit
  failure_of e b =
      record_failure env.account job (lit "process_webhook") b (env.account.class_name e)
        (env.account.message e)

  abbrev last_try : Bool
  last_try = leb env.account.settings.worker_max_tries job.job_try

  webhook_failed-rejected :
      (e : Error) (w : World)
      → is_rejection e ≡ true
      → webhook_failed env job e w ≡ (ok (failed (env.account.message e)), (failure_of e true w).1)
  unfolding webhook_failed reject_job pure lift
  webhook_failed-rejected e w h =
      rw h (after-runs (failure_of e true) _ w (Runs-record_failure env.account job _ true _ _ w))

  webhook_failed-retried :
      (e : Error) (w : World)
      → is_rejection e ≡ false
      → webhook_failed env job e w ≡ (err e, (failure_of e last_try w).1)
  unfolding webhook_failed retry_job raise lift
  webhook_failed-retried e w h = rw h (
      after-runs (failure_of e last_try) _ w (Runs-record_failure env.account job _ last_try _ _ w))

  -- How the handlers end.
  record End (e : Error) (w : World) : Type 0 where
    over : is_over (webhook_failed env job e w).0 ≡ releases env job e
    locks : (webhook_failed env job e w).1.redis.locks ≡ w.redis.locks

  webhook_failed-End : (e : Error) (w : World) → End e w
  unfolding releases is_over
  webhook_failed-End e w = go (is_rejection e) refl
    where
      go : (b : Bool) → is_rejection e ≡ b → End e w
      go true h =
          let end = webhook_failed-rejected e w h in
          record {
            over = rw end (rw h refl);
            locks = rw end (record_failure-locks env.account job _ true _ _ w);
          }
      go false h =
          let end = webhook_failed-retried e w h in
          record {
            over = rw end (rw h refl);
            locks = rw end (record_failure-locks env.account job _ last_try _ _ w);
          }

  released :
      (event_id : Text) (m : Action World (JobAnswer Answer)) (w : World)
      → is_over (m w).0 ≡ true
      → holder event_id (finally m (on_redis (release_lock event_id)) w).1.redis
        ≡ left_to (is_over (finally m (on_redis (release_lock event_id)) w).0)
  unfolding on_redis release_lock delete pure holder
  released event_id m w h =
      rw (finally-runs m (on_redis (release_lock event_id)) w refl)
        (holder-release event_id (m w).1.redis ∙ sym (ap left_to h))

  event_failed-holder :
      (event_id : Text) (e : Error) (w : World)
      → holder event_id w.redis ≡ some job.job_id
      → holder event_id (event_failed env job event_id e w).1.redis
        ≡ left_to (is_over (event_failed env job event_id e w).0)
  unfolding event_failed holder on_redis pure
  event_failed-holder event_id e w h = go (releases env job e) refl
    where
      end : End e w
      end = webhook_failed-End e w

      go :
          (b : Bool)
          → releases env job e ≡ b
          → holder event_id
              (finally
                (webhook_failed env job e)
                (if b then on_redis (release_lock event_id) else pure tt)
                w).1.redis
            ≡ left_to (
                is_over
                  (finally
                    (webhook_failed env job e)
                    (if b then on_redis (release_lock event_id) else pure tt)
                    w).0)
      go true k = released event_id (webhook_failed env job e) w (end.over ∙ k)
      go false k =
          rw (finally-runs (webhook_failed env job e) (pure tt) w refl)
            (rw (end.over ∙ k) (rw end.locks h))

  event_processed-holder :
      (event_id : Text) (r : Answer × Option ℕ) (w : World)
      → holder event_id (event_processed env job event_id r w).1.redis
        ≡ left_to (is_over (event_processed env job event_id r w).0)
  unfolding event_processed enqueue_delivery complete_job on_redis is_over ◌>>=◌ update_job_metadata
      enqueue_job
  event_processed-holder event_id (result, none) w = released event_id _ w refl
  event_processed-holder event_id (result, some n) w = released event_id _ w refl

  -- A job that has asked for the lock and was given it
  pub process_event-holder :
      (provider : GatewayProvider) (payload : WebhookPayload) (event_id : Text) (w : World)
      → holder event_id w.redis ≡ some job.job_id
      → holder event_id (process_event env job provider payload event_id w).1.redis
        ≡ left_to (is_over (process_event env job provider payload event_id w).0)
  unfolding process_event try_then run_session
  process_event-holder provider payload event_id w h =
      go (run_session (process_in_session env provider payload) w).0
        (run_session (process_in_session env provider payload) w).1 h
    where
      go :
          (r : Result (Answer × Option ℕ)) (t : World)
          → holder event_id t.redis ≡ some job.job_id
          → holder event_id
              (resumed r
                (event_failed env job event_id)
                (event_processed env job event_id)
                t).1.redis
            ≡ left_to (
                is_over
                  (resumed r
                    (event_failed env job event_id)
                    (event_processed env job event_id)
                    t).0)
      go (ok a) t k = event_processed-holder event_id a t
      go (err e) t k = event_failed-holder event_id e t k
