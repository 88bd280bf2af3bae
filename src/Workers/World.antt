-- ===== src/Workers/World.antt =====
-- What a job works on: the committed database, with the faults of its connection, and Redis. A
-- job opens sessions one after the other.
use billing_core.Shared.{ℕ, Bool, Option}
use billing_core.Shared.Texts.{Text}
use billing_core.Shared.Actions.{Action, Error}
use billing_core.Domain.Enums.{GatewayProvider}
use billing_core.Domain.Calendar.{Datetime}
use billing_core.Store.Session.{Db, Session}
use billing_core.Workers.Redis.{Redis}
use billing_core.Shared.{List}

pub record World : Type 0 where
  pub db : Db
  pub faults : List Bool
  pub redis : Redis

-- `ctx["job_id"]` and `ctx["job_try"]`
pub record Job : Type 0 where
  pub job_id : Text
  pub job_try : ℕ

-- What the jobs read of app/infra/config.py.
pub record Settings : Type 0 where
  pub worker_max_tries : ℕ
  pub internal_webhook_max_tries : ℕ
  pub default_gateway_provider : GatewayProvider

-- The time, the texts of a datetime, of an exception and of its class.
pub record JobEnv : Type 0 where
  pub settings : Settings
  pub now : ℕ → Datetime
  pub isoformat : Datetime → Text
  pub message : Error → Text
  pub class_name : Error → Text

-- What a job returns: the dictionary of its status.
pub data JobAnswer (A : Type 0) : Type 0 where
  success : A → Option ℕ → JobAnswer A
  duplicate : JobAnswer A
  ignored : JobAnswer A
  skipped : JobAnswer A
  failed : Text → JobAnswer A

module _ {A : Type 0} where
  unfoldable pub on_redis : Action Redis A → Action World A
  on_redis m w = let (r, redis) = m w.redis in (r, record w { redis = redis })

  -- `async with AsyncSessionLocal() as session:`, which rolls back what is not committed.
  unfoldable pub run_session : Action Session A → Action World A
  run_session m w =
      let (r, s) = m (record { db = w.db; committed = w.db; faults = w.faults }) in
      (r, record w { db = s.committed; faults = s.faults })
