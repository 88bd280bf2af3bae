-- ===== src/Workers/Account/Frames.antt =====
-- What the handlers of an exception leave of the database and of the locks.
use billing_core.Shared.{ℕ, ◌≡◌, refl, ap, ◌∙◌, Bool, true, false, ◌∷◌, if◌then◌else◌}
use billing_core.Shared.Texts.{Text}
use billing_core.Shared.Actions.{Error, pure, raise, lift, ◌>>=◌}
use billing_core.Workers.Redis.{Redis, update_job_metadata, register_dead_letter}
use billing_core.Workers.World.{World, Job, JobEnv, on_redis}
use billing_core.Workers.Account.{record_failure, reject_job, retry_job}
use billing_core.Workers.Account.Reported.{Runs-record_failure}
use billing_core.Workers.Account.Ends.{after-runs}
use billing_core.Workers.Redis.{is_dead}

record_failure-db :
    (env : JobEnv) (job : Job) (job_name : Text) (last : Bool) (code message : Text) (w : World)
    → (record_failure env job job_name last code message w).1.db ≡ w.db
unfolding record_failure on_redis ◌>>=◌ update_job_metadata register_dead_letter pure
record_failure-db env job job_name true code message w = refl
record_failure-db env job job_name false code message w = refl

pub reject_job-db :
    (A : Type 0) (env : JobEnv) (job : Job) (job_name : Text) (e : Error) (w : World)
    → (reject_job env job {A = A} job_name e w).1.db ≡ w.db
unfolding reject_job pure lift
reject_job-db A env job job_name e w =
    ap (λ x. x.1.db) (after-runs _ _ w (Runs-record_failure env job job_name true _ _ w))
    ∙ record_failure-db env job job_name true _ _ w

pub retry_job-db :
    (A : Type 0) (env : JobEnv) (job : Job) (job_name : Text) (k : ℕ) (e : Error) (w : World)
    → (retry_job env job {A = A} job_name k e w).1.db ≡ w.db
unfolding retry_job raise lift
retry_job-db A env job job_name k e w =
    ap (λ x. x.1.db) (after-runs _ _ w (Runs-record_failure env job job_name _ _ _ w))
    ∙ record_failure-db env job job_name _ _ _ w

-- What is written on a failure leaves the locks alone.
pub record_failure-locks :
    (env : JobEnv) (job : Job) (job_name : Text) (b : Bool) (code message : Text) (w : World)
    → (record_failure env job job_name b code message w).1.redis.locks ≡ w.redis.locks
unfolding record_failure on_redis ◌>>=◌ update_job_metadata register_dead_letter pure
record_failure-locks env job job_name true code message w = go _ (is_dead job_name job.job_id _)
  where
    go :
        (r : Redis) (b : Bool)
        → (if b
            then r
            else record r { dead_letters = (job_name, job.job_id) ∷ r.dead_letters }).locks
          ≡ r.locks
    go r true = refl
    go r false = refl
record_failure-locks env job job_name false code message w = refl
