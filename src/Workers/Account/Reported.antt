-- ===== src/Workers/Account/Reported.antt =====
-- What stands in Redis when a job ends, one rule for each way to build the end of a job.
use billing_core.Shared.{
  ℕ, ◌≡◌, refl, ◌∙◌, Bool, true, false, ◌&&◌, List, [], ◌∷◌, some, arith, leb, any, if◌then◌else◌,
}
use billing_core.Shared.Texts.{Text, lit, text_eq, text_eq_refl}
use billing_core.Shared.Actions.{Result, ok, err, Action, ◌>>=◌}
use billing_core.Workers.Redis.{
  Redis, FieldValue, text, instant, serialize_value, get_job_metadata, update_job_metadata, is_dead,
  register_dead_letter,
}
use billing_core.Workers.Redis.Metadata.{read, assigned, read-update}
use billing_core.Workers.World.{World, Job, JobEnv, JobAnswer, failed, on_redis}
use billing_core.Workers.Account.{update, failure, record_failure, complete_job}

-- The job is among the dead letters.
unfoldable pub is_dead_letter : Text → Redis → Bool
is_dead_letter job_id r = any (λ (n, i). text_eq i job_id) r.dead_letters

module _ (max_tries : ℕ) (job : Job) {A : Type 0} where
  -- The status that a run is to leave, by its outcome.
  unfoldable pub status_after : Result (JobAnswer A) → Text
  status_after (ok (failed message)) = lit "failed"
  status_after (ok _) = lit "completed"
  status_after (err e) = if leb max_tries job.job_try then lit "failed" else lit "retrying"

  -- The outcomes after which the job is not run again, and has not done its work.
  unfoldable pub is_given_up : Result (JobAnswer A) → Bool
  is_given_up (ok (failed message)) = true
  is_given_up (ok _) = false
  is_given_up (err e) = leb max_tries job.job_try

  pub record Reported (m : Action World (JobAnswer A)) : Type 0 where
    pub status :
        (w : World) → read (m w).1.redis job.job_id (lit "status") ≡ some (status_after (m w).0)
    pub letter :
        (w : World) → is_given_up (m w).0 ≡ true → is_dead_letter job.job_id (m w).1.redis ≡ true

is_dead-letter :
    (job_name job_id : Text) (r : Redis)
    → is_dead job_name job_id r ≡ true
    → is_dead_letter job_id r ≡ true
unfolding is_dead is_dead_letter any
is_dead-letter job_name job_id r h = go r.dead_letters h
  where
    go :
        (l : List (Text × Text))
        → any (λ (n, i). text_eq n job_name && text_eq i job_id) l ≡ true
        → any (λ (n, i). text_eq i job_id) l ≡ true
    go [] h = h
    go (x ∷ l) h = ground (arith, go l)

pub register_dead_letter-letter :
    (job_name job_id : Text) (r : Redis)
    → is_dead_letter job_id (register_dead_letter job_name job_id r).1 ≡ true
unfolding register_dead_letter is_dead_letter any
register_dead_letter-letter job_name job_id r =
    ground (arith, is_dead-letter job_name job_id r, text_eq_refl job_id)

read-register :
    (job_name job_id job field : Text) (r : Redis)
    → read (register_dead_letter job_name job_id r).1 job field ≡ read r job field
unfolding register_dead_letter read get_job_metadata
read-register job_name job_id job field r = go (is_dead job_name job_id r)
  where
    go :
        (b : Bool)
        → read
            (if b then r else record r { dead_letters = (job_name, job_id) ∷ r.dead_letters })
            job
            field
          ≡ read r job field
    go true = refl
    go false = refl

module _ (env : JobEnv) (job : Job) where
  -- The status that an update writes is what is read.
  pub read-status :
      (fields : List (Text × FieldValue)) (r : Redis)
      → read (update_job_metadata env.isoformat job.job_id fields r).1 job.job_id (lit "status")
        ≡ assigned env.isoformat (lit "status") fields (read r job.job_id (lit "status"))
  read-status fields r =
      read-update env.isoformat (record { job = job.job_id; fields = fields }) r job.job_id
        (lit "status")
      ∙ ground (arith, text_eq_refl job.job_id)

  unfoldable pub failure_text : Bool → Text
  failure_text b = if b then lit "failed" else lit "retrying"

  pub record_failure-status :
      (job_name : Text) (b : Bool) (code message : Text) (w : World)
      → read (record_failure env job job_name b code message w).1.redis job.job_id (lit "status")
        ≡ some (failure_text b)
  unfolding record_failure on_redis ◌>>=◌ assigned failure_text lit text_eq update_job_metadata
      serialize_value
  record_failure-status job_name true code message w =
      read-register job_name job.job_id job.job_id (lit "status") _
      ∙ read-status (failure env job true code message) w.redis
  record_failure-status job_name false code message w =
      read-status (failure env job false code message) w.redis

  pub record_failure-letter :
      (job_name : Text) (b : Bool) (code message : Text) (w : World)
      → b ≡ true
      → is_dead_letter job.job_id (record_failure env job job_name b code message w).1.redis ≡ true
  unfolding record_failure on_redis ◌>>=◌ register_dead_letter is_dead_letter update_job_metadata
  record_failure-letter job_name true code message w h =
      register_dead_letter-letter job_name job.job_id _
  record_failure-letter job_name false code message w h = ground arith

  pub complete_job-status :
      (w : World)
      → read (complete_job env job w).1.redis job.job_id (lit "status") ≡ some (lit "completed")
  unfolding complete_job on_redis assigned lit text_eq update_job_metadata serialize_value
  complete_job-status w =
      read-status
        ((lit "status", text (lit "completed")) ∷ (lit "finished_at", instant (env.now 1)) ∷ [])
        w.redis

-- A step that can not raise.
abbrev pub Runs : Action World Unit → Type 0
Runs m = (w : World) → (m w).0 ≡ ok tt

pub Runs-update :
    (env : JobEnv) (job : Job) (fields : List (Text × FieldValue)) → Runs (update env job fields)
unfolding on_redis update_job_metadata
Runs-update env job [] w = refl
Runs-update env job (f ∷ fields) w = refl

pub Runs-record_failure :
    (env : JobEnv) (job : Job) (job_name : Text) (b : Bool) (code message : Text)
    → Runs (record_failure env job job_name b code message)
unfolding record_failure on_redis ◌>>=◌ update_job_metadata register_dead_letter
Runs-record_failure env job job_name true code message w = refl
Runs-record_failure env job job_name false code message w = refl
