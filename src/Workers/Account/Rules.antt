-- ===== src/Workers/Account/Rules.antt =====
-- The rules for what stands in Redis when a job ends, one for each way to build a job.
use billing_core.Shared.{ℕ, ◌≡◌, refl, Bool, true, false, not, ◌||◌, some, arith}
use billing_core.Shared.Texts.{lit}
use billing_core.Shared.Actions.{
  Error, Result, ok, err, Action, finally, continue, resumed, try_then, ◌>>=◌,
}
use billing_core.Workers.Redis.{get_job_metadata}
use billing_core.Workers.Redis.Metadata.{read}
use billing_core.Workers.World.{World, Job, JobAnswer}
use billing_core.Workers.Account.Reported.{
  is_dead_letter, status_after, is_given_up, Reported, Runs,
}
use billing_core.Workers.Account.Ends.{Silent}

module _ {max_tries : ℕ} {job : Job} {A B : Type 0} where
  -- The end decides, whatever went before it, if that can not raise or is in a `try`.
  pub Reported-try :
      (m : Action World B) (h : Error → Action World (JobAnswer A))
      (f : B → Action World (JobAnswer A))
      → ((e : Error) → Reported max_tries job (h e))
      → ((b : B) → Reported max_tries job (f b))
      → Reported max_tries job (try_then m h f)
  unfolding try_then
  Reported-try m h f p q = record {
    status = λ w. status_of (m w).0 (m w).1;
    letter = λ w. letter_of (m w).0 (m w).1;
  }
    where
      status_of :
          (r : Result B) (t : World)
          → read (resumed r h f t).1.redis job.job_id (lit "status")
            ≡ some (status_after max_tries job (resumed r h f t).0)
      status_of (ok b) t = (q b).status t
      status_of (err e) t = (p e).status t

      letter_of :
          (r : Result B) (t : World)
          → is_given_up max_tries job (resumed r h f t).0 ≡ true
          → is_dead_letter job.job_id (resumed r h f t).1.redis ≡ true
      letter_of (ok b) t = (q b).letter t
      letter_of (err e) t = (p e).letter t

  -- The end decides, whatever a step before it answers that does not raise.
  pub Reported-answered :
      (m : Action World B) (f : B → Action World (JobAnswer A))
      → ((w : World) → (b : B) × ((m w).0 ≡ ok b))
      → ((b : B) → Reported max_tries job (f b))
      → Reported max_tries job (m >>= f)
  unfolding ◌>>=◌
  Reported-answered m f n q = record {
    status = λ w. status_of (m w).0 (m w).1 (n w);
    letter = λ w. letter_of (m w).0 (m w).1 (n w);
  }
    where
      status_of :
          (u : Result B) (t : World)
          → (b : B) × (u ≡ ok b)
          → read (continue u f t).1.redis job.job_id (lit "status")
            ≡ some (status_after max_tries job (continue u f t).0)
      status_of (ok b) t h = (q b).status t
      status_of (err e) t (b, h) = ground arith

      letter_of :
          (u : Result B) (t : World)
          → (b : B) × (u ≡ ok b)
          → is_given_up max_tries job (continue u f t).0 ≡ true
          → is_dead_letter job.job_id (continue u f t).1.redis ≡ true
      letter_of (ok b) t h = (q b).letter t
      letter_of (err e) t (b, h) = ground arith

module _ {max_tries : ℕ} {job : Job} {A : Type 0} where
  pub Reported-after :
      (m : Action World Unit) (f : Unit → Action World (JobAnswer A))
      → Runs m
      → ((b : Unit) → Reported max_tries job (f b))
      → Reported max_tries job (m >>= f)
  Reported-after m f n q = Reported-answered m f (λ w. (tt, n w)) q

  -- A cleanup that follows, whatever the outcome.
  pub Reported-finally :
      (m : Action World (JobAnswer A)) (n : Action World Unit)
      → Silent n
      → Reported max_tries job m
      → Reported max_tries job (finally m n)
  unfolding finally read get_job_metadata is_dead_letter
  Reported-finally m n s p = record {
    status = λ w. status_of (m w).0 (m w).1 (n (m w).1).0 (s.runs (m w).1) (p.status w);
    letter = λ w. letter_of (m w).0 (m w).1 (n (m w).1).0 (s.runs (m w).1) (p.letter w);
  }
    where
      status_of :
          (r : Result (JobAnswer A)) (t : World) (u : Result Unit)
          → u ≡ ok tt
          → read t.redis job.job_id (lit "status") ≡ some (status_after max_tries job r)
          → read (continue u (λ _ s. (r, s)) (n t).1).1.redis job.job_id (lit "status")
            ≡ some (status_after max_tries job (continue u (λ _ s. (r, s)) (n t).1).0)
      status_of r t (ok u) h k = rw (s.metadata t) k
      status_of r t (err e) h k = ground arith

      letter_of :
          (r : Result (JobAnswer A)) (t : World) (u : Result Unit)
          → u ≡ ok tt
          → (is_given_up max_tries job r ≡ true → is_dead_letter job.job_id t.redis ≡ true)
          → is_given_up max_tries job (continue u (λ _ s. (r, s)) (n t).1).0 ≡ true
          → is_dead_letter job.job_id (continue u (λ _ s. (r, s)) (n t).1).1.redis ≡ true
      letter_of r t (ok u) h k = rw (s.dead_letters t) k
      letter_of r t (err e) h k = ground arith

-- The account of one run: the status by the outcome, and the job among the dead letters if it is
-- given up.
pub record Accounted (max_tries : ℕ) (job : Job) {A : Type 0}
    (outcome : Result (JobAnswer A) × World) : Type 0 where
  pub status :
      read outcome.1.redis job.job_id (lit "status") ≡ some (status_after max_tries job outcome.0)
  pub letter :
      (not (is_given_up max_tries job outcome.0) || is_dead_letter job.job_id outcome.1.redis)
      ≡ true

pub Reported-Accounted :
    {max_tries : ℕ} {job : Job} {A : Type 0} (m : Action World (JobAnswer A))
    → Reported max_tries job m
    → (w : World) → Accounted max_tries job (m w)
Reported-Accounted {max_tries} {job} m r w = record {
  status = r.status w;
  letter = go (is_given_up max_tries job (m w).0) (r.letter w);
}
  where
    go :
        (b : Bool)
        → (b ≡ true → is_dead_letter job.job_id (m w).1.redis ≡ true)
        → (not b || is_dead_letter job.job_id (m w).1.redis) ≡ true
    go true h = h refl
    go false h = refl
