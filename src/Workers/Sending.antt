-- ===== src/Workers/Sending.antt =====
-- `send_internal_webhook` of app/workers/tasks.py: a stored delivery is sent to the system that it
-- is for. What happens to it is written in a session of its own.
pub mod Reported
pub mod Stored
pub mod Outcome
pub mod Sent
use billing_core.Shared.{ℕ, Bool, [], ◌∷◌, none, some, leb, if◌then◌else◌}
use billing_core.Shared.Texts.{Text, lit}
use billing_core.Shared.Json.{Json}
use billing_core.Shared.Actions.{Error, Result, Action, pure, lift, attempt, try_then, ◌>>=◌, ◌>>◌}
use billing_core.Domain.Delivery.{
  Delivery, register_attempt, mark_retrying, mark_failed, mark_delivered,
}
use billing_core.Store.Session.{Session, commit, rollback, save, get_by_key}
use billing_core.Store.Repositories.{deliveries}
use billing_core.Workers.Redis.{text}
use billing_core.Workers.World.{World, Job, JobEnv, JobAnswer, success, run_session}
use billing_core.Workers.Account.{is_rejection, start_job, complete_job, reject_job, retry_job}

-- What the job takes from outside: the reading and the text of an identifier, and
-- `InternalWebhookProvider.send`, of the url, the payload, the id and the event.
pub record SendEnv : Type 0 where
  pub account : JobEnv
  pub parse_uuid : Text → Result ℕ
  pub uuid_text : ℕ → Text
  pub send : Text → Json → Text → Text → Result (Unit {0})

-- `delivery_repo.get_by_id`
unfoldable pub delivery_by_id : ℕ → Action Session Delivery
delivery_by_id = get_by_key deliveries

module _ (env : SendEnv) (job : Job) where
  abbrev webhook_id : Delivery → Text
  webhook_id d = elim d.id [ none ↦ d.dedupe_key | some n ↦ env.uuid_text n ]

  -- The attempt is committed before the delivery is sent.
  unfoldable pub send_delivery : Delivery → Action Session Unit
  send_delivery delivery = do
    save deliveries delivery
    commit
    lift (env.send delivery.target_url delivery.payload (webhook_id delivery) delivery.event_type)
    save deliveries (mark_delivered (env.account.now 3) delivery)
    commit

  unfoldable pub deliver : Text → Action Session Unit
  deliver delivery_id = do
    n ← lift (env.parse_uuid delivery_id)
    delivery ← delivery_by_id n
    send_delivery (register_attempt (env.account.now 2) delivery)

  -- The delivery is changed in a new session; an exception of it is dropped.
  unfoldable pub failure_written : (Delivery → Delivery) → Text → Action Session Unit
  failure_written change delivery_id =
      attempt
        (do
          n ← lift (env.parse_uuid delivery_id)
          delivery ← delivery_by_id n
          save deliveries (change delivery)
          commit)
        (λ e. rollback)

  unfoldable pub write_failure : (Delivery → Delivery) → Text → Action World Unit
  write_failure change delivery_id = run_session (failure_written change delivery_id)

  -- `is_final_try`
  unfoldable pub is_final_try : Bool
  is_final_try = leb env.account.settings.internal_webhook_max_tries job.job_try

  unfoldable pub send_failed : Text → Error → Action World (JobAnswer Text)
  send_failed delivery_id e =
      let failed_for_good = mark_failed (env.account.message e) (env.account.now 4) in
      if is_rejection e
      then (do
        write_failure failed_for_good delivery_id
        reject_job env.account job (lit "send_internal_webhook") e)
      else (do
        write_failure
            (if is_final_try
              then failed_for_good
              else mark_retrying (env.account.message e) (env.account.now 4))
            delivery_id
        retry_job env.account job (lit "send_internal_webhook")
            env.account.settings.internal_webhook_max_tries e)

  unfoldable pub send_internal_webhook : Text → Action World (JobAnswer Text)
  send_internal_webhook delivery_id =
      start_job env.account job (
        (lit "resource_type", text (lit "internal_webhook"))
        ∷ (lit "delivery_id", text delivery_id)
        ∷ [])
      >> try_then (run_session (deliver delivery_id)) (send_failed delivery_id)
          λ u. do complete_job env.account job; pure (success delivery_id none)
