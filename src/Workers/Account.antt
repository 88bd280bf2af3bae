-- ===== src/Workers/Account.antt =====
-- How a job keeps account of itself in Redis: what it writes at its start and when it is done, and
-- the three handlers of its exceptions.
pub mod Reported
pub mod Ends
pub mod Frames
pub mod Rules
use billing_core.Shared.{ℕ, Bool, true, ◌&&◌, List, [], ◌∷◌, ◌++◌, take, leb, ltb, if◌then◌else◌}
use billing_core.Shared.Texts.{Text, lit}
use billing_core.Shared.Actions.{
  Error, value_error, gateway_api, is_domain_error, Action, pure, raise, ◌>>=◌, ◌>>◌,
}
use billing_core.Workers.Redis
use billing_core.Workers.Redis.{
  FieldValue, nothing, instant, number, text, str, update_job_metadata, register_dead_letter,
}
use billing_core.Workers.World.{World, Job, JobEnv, JobAnswer, failed, on_redis}

-- `isinstance(e, (DomainError, NotFoundError, ValueError))`
abbrev pub is_rejection : Error → Bool
is_rejection (value_error _) = true
is_rejection e = is_domain_error e

module _ (env : JobEnv) (job : Job) where
  abbrev pub update : List (Text × FieldValue) → Action World Unit
  update fields = on_redis (update_job_metadata env.isoformat job.job_id fields)

  -- The fields that a job writes first, and those of its own.
  unfoldable pub start_job : List (Text × FieldValue) → Action World Unit
  start_job others = update (
      (lit "status", text (lit "processing"))
      ∷ (lit "attempt", number job.job_try)
      ∷ (lit "started_at", instant (env.now 0))
      ∷ (lit "error_code", nothing)
      ∷ (lit "error_message", nothing)
      ∷ others)

  unfoldable pub complete_job : Action World Unit
  complete_job =
      update
        ((lit "status", text (lit "completed")) ∷ (lit "finished_at", instant (env.now 1)) ∷ [])

  -- The fields of a failure, without and with another try to come.
  abbrev pub failure : Bool → Text → Text → List (Text × FieldValue)
  failure is_final error_code error_message =
      (lit "status", text (if is_final then lit "failed" else lit "retrying"))
      ∷ (lit "attempt", number job.job_try)
      ∷ (lit "finished_at", if is_final then instant (env.now 1) else nothing)
      ∷ (lit "error_code", text error_code)
      ∷ (lit "error_message", text error_message)
      ∷ []

  -- A failure is written, and the job is given up after its last try.
  unfoldable pub record_failure : Text → Bool → Text → Text → Action World Unit
  record_failure job_name is_final_try error_code error_message = do
    update (failure is_final_try error_code error_message)
    (if is_final_try then on_redis (register_dead_letter job_name job.job_id) else pure tt)

  module _ {A : Type 0} where
    -- The handler of an exception that no retry would change.
    unfoldable pub reject_job : Text → Error → Action World (JobAnswer A)
    reject_job job_name e = do
      record_failure job_name true (env.class_name e) (env.message e)
      pure (failed (env.message e))

    -- The handler of any other exception, which goes on to the queue.
    unfoldable pub retry_job : Text → ℕ → Error → Action World (JobAnswer A)
    retry_job job_name max_tries e = do
      record_failure job_name (leb max_tries job.job_try) (env.class_name e) (env.message e)
      raise e

    -- `_handle_gateway_api_error`, of an answer with a status and a body.
    unfoldable pub handle_gateway_api_error : Text → ℕ → Text → Action World (JobAnswer A)
    handle_gateway_api_error job_name status_code body =
        let e = gateway_api status_code body in
        let error_code = env.class_name e ++ (b'_' ∷ str status_code) in
        if leb 400 status_code && ltb status_code 500
        then (do
          record_failure job_name true error_code (take 500 body)
          pure (failed (env.message e)))
        else (do
          record_failure job_name (leb env.settings.worker_max_tries job.job_try) error_code
              (take 500 body)
          raise e)

    -- `except GatewayAPIError` and `except Exception`
    unfoldable pub gateway_failed : Text → Error → Action World (JobAnswer A)
    gateway_failed job_name (gateway_api status_code body) =
        handle_gateway_api_error job_name status_code body
    gateway_failed job_name e = retry_job job_name env.settings.worker_max_tries e

    -- The three handlers, for the exceptions that the first of them takes.
    unfoldable pub job_failed : (Error → Bool) → Text → Error → Action World (JobAnswer A)
    job_failed rejected job_name e =
        if rejected e then reject_job job_name e else gateway_failed job_name e
