-- ===== src/Workers/Jobs/Tidy.antt =====
-- What a job leaves of the tables, one rule for each way to build a job.
use billing_core.Shared.{ℕ, Bool, true, false, List, Option, none, some, if◌then◌else◌}
use billing_core.Shared.Texts.{Text}
use billing_core.Shared.Actions.{
  Error, gateway_api, Result, ok, err, Action, pure, raise, lift, continue, resumed, try_then,
  finally, ◌>>=◌,
}
use billing_core.Store.Session.{Session}
use billing_core.Store.Integrity.{InOrder, Orderly}
use billing_core.Workers.Redis.{Redis, FieldValue}
use billing_core.Workers.World.{World, Job, JobEnv, on_redis, run_session}
use billing_core.Workers.Account.{
  start_job, complete_job, record_failure, reject_job, retry_job, handle_gateway_api_error,
  gateway_failed, job_failed,
}
use billing_core.Workers.Webhook.{enqueue_delivery}

-- The job keeps the database in order, whether it raises or not.
pub record Tidy {A : Type 0} (m : Action World A) : Type 0 where
  pub at : (w : World) → InOrder w.db → InOrder (m w).1.db

module _ {A : Type 0} where
  pub Tidy-pure : (a : A) → Tidy (pure a)
  unfolding pure
  Tidy-pure a = record { at = λ w g. g }

  pub Tidy-raise : (e : Error) → Tidy (raise {A = A} e)
  unfolding raise
  Tidy-raise e = record { at = λ w g. g }

  pub Tidy-lift : (r : Result A) → Tidy (lift r)
  unfolding lift
  Tidy-lift r = record { at = λ w g. g }

  pub Tidy-on_redis : (m : Action Redis A) → Tidy (on_redis m)
  unfolding on_redis
  Tidy-on_redis m = record { at = λ w g. g }

  pub Tidy-run_session : (m : Action Session A) → Orderly m → Tidy (run_session m)
  unfolding run_session
  Tidy-run_session m h = record {
    at = λ w g. (h.at (record { db = w.db; committed = w.db; faults = w.faults }) (g, g)).1;
  }

  pub Tidy-if : (b : Bool) (m n : Action World A) → Tidy m → Tidy n → Tidy (if b then m else n)
  Tidy-if true m n p q = p
  Tidy-if false m n p q = q

  pub Tidy-finally :
      (m : Action World A) (n : Action World Unit) → Tidy m → Tidy n → Tidy (finally m n)
  unfolding finally
  Tidy-finally m n p q = record {
    at = λ w g. go (m w).0 (n (m w).1).0 (n (m w).1).1 (q.at (m w).1 (p.at w g));
  }
    where
      go :
          (r : Result A) (u : Result Unit) (t : World)
          → InOrder t.db
          → InOrder (continue u (λ _ s. (r, s)) t).1.db
      go r (ok u) t g = g
      go r (err e) t g = g

module _ {A B : Type 0} where
  pub Tidy-bind :
      (m : Action World A) (f : A → Action World B)
      → Tidy m
      → ((a : A) → Tidy (f a))
      → Tidy (m >>= f)
  unfolding ◌>>=◌
  Tidy-bind m f p q = record { at = λ w g. go (m w).0 (m w).1 (p.at w g) }
    where
      go : (r : Result A) (t : World) → InOrder t.db → InOrder (continue r f t).1.db
      go (ok a) t g = (q a).at t g
      go (err e) t g = g

  pub Tidy-try_then :
      (m : Action World A) (h : Error → Action World B) (f : A → Action World B)
      → Tidy m
      → ((e : Error) → Tidy (h e))
      → ((a : A) → Tidy (f a))
      → Tidy (try_then m h f)
  unfolding try_then
  Tidy-try_then m h f p q k = record { at = λ w g. go (m w).0 (m w).1 (p.at w g) }
    where
      go : (r : Result A) (t : World) → InOrder t.db → InOrder (resumed r h f t).1.db
      go (ok a) t g = (k a).at t g
      go (err e) t g = (q e).at t g

pub ruleset tidy_rules = (
  Tidy-pure, Tidy-raise, Tidy-lift, Tidy-on_redis, Tidy-run_session, Tidy-if, Tidy-finally,
  Tidy-bind, Tidy-try_then,
)

module _ (env : JobEnv) (job : Job) where
  pub Tidy-start_job : (l : List (Text × FieldValue)) → Tidy (start_job env job l)
  unfolding start_job
  Tidy-start_job l = search tidy_rules

  pub Tidy-complete_job : Tidy (complete_job env job)
  unfolding complete_job
  Tidy-complete_job = search tidy_rules

  pub Tidy-record_failure :
      (n : Text) (b : Bool) (c m : Text) → Tidy (record_failure env job n b c m)
  unfolding record_failure
  Tidy-record_failure n b c m = search tidy_rules

  module _ {A : Type 0} where
    pub Tidy-reject_job : (n : Text) (e : Error) → Tidy (reject_job env job {A = A} n e)
    unfolding reject_job
    Tidy-reject_job n e = search (tidy_rules, Tidy-record_failure)

    pub Tidy-retry_job : (n : Text) (k : ℕ) (e : Error) → Tidy (retry_job env job {A = A} n k e)
    unfolding retry_job
    Tidy-retry_job n k e = search (tidy_rules, Tidy-record_failure)

    pub Tidy-gateway_failed : (n : Text) (e : Error) → Tidy (gateway_failed env job {A = A} n e)
    unfolding gateway_failed handle_gateway_api_error
    Tidy-gateway_failed n (gateway_api c b) = search (tidy_rules, Tidy-record_failure)
    Tidy-gateway_failed n e = Tidy-retry_job n env.settings.worker_max_tries e

    pub Tidy-job_failed :
        (r : Error → Bool) (n : Text) (e : Error) → Tidy (job_failed env job {A = A} r n e)
    unfolding job_failed
    Tidy-job_failed r n e = search (tidy_rules, Tidy-reject_job, Tidy-gateway_failed)

pub Tidy-enqueue_delivery : (o : Option ℕ) → Tidy (enqueue_delivery o)
unfolding enqueue_delivery
Tidy-enqueue_delivery none = search tidy_rules
Tidy-enqueue_delivery (some n) = search tidy_rules

pub ruleset account_rules = (
  tidy_rules, Tidy-start_job, Tidy-complete_job, Tidy-reject_job, Tidy-retry_job, Tidy-job_failed,
  Tidy-enqueue_delivery,
)
