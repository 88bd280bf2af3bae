-- ===== src/Workers/Account/Ends.antt =====
-- What stands in Redis after the ends that a job can have: it is done, rejected, or to be tried again.
use billing_core.Shared.{
  ℕ, ◌≡◌, refl, ap, sym, ◌∙◌, Bool, true, false, some, arith, leb, if◌then◌else◌,
}
use billing_core.Shared.Texts.{Text, lit}
use billing_core.Shared.Actions.{
  Error, gateway_api, Result, ok, err, Action, pure, raise, lift, finally, continue, ◌>>=◌, ◌>>◌,
}
use billing_core.Workers.Redis.{get_job_metadata}
use billing_core.Workers.Redis.Metadata.{read}
use billing_core.Workers.World.{World, Job, JobEnv, JobAnswer, failed, on_redis}
use billing_core.Workers.Account.{
  record_failure, complete_job, reject_job, retry_job, handle_gateway_api_error, gateway_failed,
  job_failed,
}
use billing_core.Workers.Redis.{delete}
use billing_core.Workers.Account.Reported.{
  is_dead_letter, status_after, is_given_up, Reported, failure_text, record_failure-status,
  record_failure-letter, complete_job-status, Runs, Runs-update, Runs-record_failure,
}

-- A `finally` that does not raise keeps the outcome.
pub finally-runs :
    {A : Type 0} (m : Action World A) (n : Action World Unit) (w : World)
    → (n (m w).1).0 ≡ ok tt
    → finally m n w ≡ ((m w).0, (n (m w).1).1)
unfolding finally
finally-runs m n w h = rw h refl

-- What follows a step that does not raise.
pub after-runs :
    {A : Type 0} (m : Action World Unit) (r : Result A) (w : World)
    → (m w).0 ≡ ok tt
    → (m >> lift r) w ≡ (r, (m w).1)
unfolding ◌>>=◌ lift
after-runs m r w h = rw h refl

-- A step that neither raises nor writes to the account of a job.
pub record Silent (m : Action World Unit) : Type 0 where
  pub runs : Runs m
  pub metadata : (w : World) → (m w).1.redis.metadata ≡ w.redis.metadata
  pub dead_letters : (w : World) → (m w).1.redis.dead_letters ≡ w.redis.dead_letters

-- An end that has the outcome `r` whatever went before.
pub record Closes {A : Type 0} (f : Action World (JobAnswer A)) (r : Result (JobAnswer A))
    : Type 0 where
  pub outcome : (w : World) → (f w).0 ≡ r
  pub metadata : (w : World) → (f w).1.redis.metadata ≡ w.redis.metadata
  pub dead_letters : (w : World) → (f w).1.redis.dead_letters ≡ w.redis.dead_letters

module _ {A : Type 0} where
  pub Closes-pure : (a : JobAnswer A) → Closes (pure a) (ok a)
  unfolding pure
  Closes-pure a = record { outcome = λ w. refl; metadata = λ w. refl; dead_letters = λ w. refl }

  pub Closes-raise : (e : Error) → Closes {A = A} (raise e) (err e)
  unfolding raise
  Closes-raise e = record { outcome = λ w. refl; metadata = λ w. refl; dead_letters = λ w. refl }

  pub Closes-delete : (k : Text) (a : JobAnswer A) → Closes (on_redis (delete k) >> pure a) (ok a)
  unfolding pure on_redis delete ◌>>=◌
  Closes-delete k a = record { outcome = λ w. refl; metadata = λ w. refl; dead_letters = λ w. refl }

module _ {max_tries : ℕ} {job : Job} {A : Type 0} where
  -- A step writes what the outcome that follows asks for.
  Reported-end :
      (m : Action World Unit) (f : Action World (JobAnswer A)) (r : Result (JobAnswer A))
      → Runs m
      → Closes f r
      → ((w : World)
          → read (m w).1.redis job.job_id (lit "status") ≡ some (status_after max_tries job r))
      → ((w : World)
          → is_given_up max_tries job r ≡ true
          → is_dead_letter job.job_id (m w).1.redis ≡ true)
      → Reported max_tries job (m >> f)
  unfolding ◌>>=◌ read get_job_metadata is_dead_letter
  Reported-end m f r n c p q = record {
    status = λ w. status_of (m w).0 (m w).1 (n w) (p w);
    letter = λ w. letter_of (m w).0 (m w).1 (n w) (q w);
  }
    where
      status_of :
          (u : Result Unit) (t : World)
          → u ≡ ok tt
          → read t.redis job.job_id (lit "status") ≡ some (status_after max_tries job r)
          → read (continue u (λ _. f) t).1.redis job.job_id (lit "status")
            ≡ some (status_after max_tries job (continue u (λ _. f) t).0)
      status_of (ok u) t h k = rw (c.metadata t) (rw (c.outcome t) k)
      status_of (err e) t h k = ground arith

      letter_of :
          (u : Result Unit) (t : World)
          → u ≡ ok tt
          → (is_given_up max_tries job r ≡ true → is_dead_letter job.job_id t.redis ≡ true)
          → is_given_up max_tries job (continue u (λ _. f) t).0 ≡ true
          → is_dead_letter job.job_id (continue u (λ _. f) t).1.redis ≡ true
      letter_of (ok u) t h k = rw (c.dead_letters t) (rw (c.outcome t) k)
      letter_of (err e) t h k = ground arith

module _ (env : JobEnv) (job : Job) {A : Type 0} (max_tries : ℕ) where
  Reported-rejected :
      (job_name code text message : Text)
      → Reported max_tries job {A = A}
          (record_failure env job job_name true code text >> pure (failed message))
  unfolding status_after is_given_up failure_text
  Reported-rejected job_name code text message =
      Reported-end (record_failure env job job_name true code text) _ (ok (failed message))
        (Runs-record_failure env job job_name true code text) (Closes-pure _)
        (record_failure-status env job job_name true code text)
        (record_failure-letter env job job_name true code text)

  Reported-retried :
      (job_name code text : Text) (e : Error)
      → Reported max_tries job {A = A}
          (record_failure env job job_name (leb max_tries job.job_try) code text >> raise e)
  unfolding status_after is_given_up failure_text
  Reported-retried job_name code text e =
      Reported-end (record_failure env job job_name (leb max_tries job.job_try) code text) _ (err e)
        (Runs-record_failure env job job_name (leb max_tries job.job_try) code text)
        (Closes-raise e)
        (record_failure-status env job job_name (leb max_tries job.job_try) code text)
        (record_failure-letter env job job_name (leb max_tries job.job_try) code text)

  pub Reported-reject :
      (job_name : Text) (e : Error) → Reported max_tries job {A = A} (reject_job env job job_name e)
  unfolding reject_job
  Reported-reject job_name e = Reported-rejected job_name _ _ _

  pub Reported-retry :
      (job_name : Text) (e : Error)
      → Reported max_tries job {A = A} (retry_job env job job_name max_tries e)
  unfolding retry_job
  Reported-retry job_name e = Reported-retried job_name _ _ e

  -- A job is done.
  pub Reported-complete :
      (f : Action World (JobAnswer A)) (a : JobAnswer A)
      → Closes f (ok a)
      → status_after max_tries job (ok a) ≡ lit "completed"
      → is_given_up max_tries job (ok a) ≡ false
      → Reported max_tries job (complete_job env job >> f)
  unfolding complete_job
  Reported-complete f a c p q =
      Reported-end (complete_job env job) f (ok a) (Runs-update env job _) c
        (λ w. complete_job-status env job w ∙ ap some (sym p)) (λ w h. ground arith)

  pub Reported-if :
      (b : Bool) (m n : Action World (JobAnswer A))
      → Reported max_tries job m
      → Reported max_tries job n
      → Reported max_tries job (if b then m else n)
  Reported-if true m n p q = p
  Reported-if false m n p q = q

module _ (env : JobEnv) (job : Job) {A : Type 0} where
  pub Reported-gateway_failed :
      (job_name : Text) (e : Error)
      → Reported env.settings.worker_max_tries job {A = A} (gateway_failed env job job_name e)
  unfolding gateway_failed handle_gateway_api_error
  Reported-gateway_failed job_name (gateway_api status_code body) =
      Reported-if env job env.settings.worker_max_tries _ _ _
        (Reported-rejected env job _ job_name _ _ _) (Reported-retried env job _ job_name _ _ _)
  Reported-gateway_failed job_name e =
      Reported-retry env job env.settings.worker_max_tries job_name e

  pub Reported-job_failed :
      (rejected : Error → Bool) (job_name : Text) (e : Error)
      → Reported env.settings.worker_max_tries job {A = A} (job_failed env job rejected job_name e)
  unfolding job_failed
  Reported-job_failed rejected job_name e =
      Reported-if env job env.settings.worker_max_tries _ _ _ (Reported-reject env job _ job_name e)
        (Reported-gateway_failed job_name e)
