-- ===== src/Workers/Redis/Metadata.antt =====
-- What is read of the metadata of the jobs after a row of updates.
use mathlib.Core.Path.{fun_ext}
use billing_core.Shared.{◌≡◌, refl, ap, ◌∙◌, List, [], ◌∷◌, Option, some, arith, if◌then◌else◌}
use billing_core.Shared.Texts.{Text, lit, text_eq, text_eq_iff}
use billing_core.Shared.Dict.{Dict, lookup, insert, lookup-insert}
use billing_core.Domain.Calendar.{Datetime}
use billing_core.Workers.Redis.{
  Redis, FieldValue, serialize_value, hset, build_job_meta_key, get_job_metadata,
  update_job_metadata,
}

-- A field of the metadata of a job.
unfoldable pub read : Redis → Text → Text → Option Text
read r job field = lookup field (get_job_metadata job r)

-- One update: the job and the fields.
pub record Update : Type 0 where
  pub job : Text
  pub fields : List (Text × FieldValue)

module _ (isoformat : Datetime → Text) where
  unfoldable pub run_updates : List Update → Redis → Redis
  run_updates [] r = r
  run_updates (u ∷ l) r = run_updates l (update_job_metadata isoformat u.job u.fields r).1

  -- The same on a function of the job and the field: the last value that was given counts.
  unfoldable pub assigned : Text → List (Text × FieldValue) → Option Text → Option Text
  assigned field [] old = old
  assigned field ((key, value) ∷ l) old =
      assigned field l (if text_eq field key then some (serialize_value isoformat value) else old)

  unfoldable pub replay : List Update → (Text → Text → Option Text) → Text → Text → Option Text
  replay [] f job field = f job field
  replay (u ∷ l) f job field =
      replay l (λ j k. if text_eq j u.job then assigned k u.fields (f j k) else f j k) job field

  pub lookup-hset :
      (k : Text) (l : List (Text × FieldValue)) (d : Dict Text)
      → lookup k (hset isoformat l d) ≡ assigned k l (lookup k d)
  unfolding hset assigned
  lookup-hset k [] d = refl
  lookup-hset k ((key, value) ∷ l) d =
      lookup-hset k l (insert key (serialize_value isoformat value) d)
      ∙ ap (assigned k l) (lookup-insert k key (serialize_value isoformat value) d)

  build_job_meta_key-eq :
      (i j : Text) → text_eq (build_job_meta_key i) (build_job_meta_key j) ≡ text_eq i j
  unfolding build_job_meta_key lit text_eq
  build_job_meta_key-eq i j = refl

  pub read-update :
      (u : Update) (r : Redis) (job field : Text)
      → read (update_job_metadata isoformat u.job u.fields r).1 job field ≡ (
          if text_eq job u.job
          then assigned field u.fields (read r job field)
          else read r job field)
  unfolding read update_job_metadata get_job_metadata assigned
  read-update u r job field = go u.fields
    where
      go :
          (l : List (Text × FieldValue))
          → lookup field (get_job_metadata job (update_job_metadata isoformat u.job l r).1) ≡ (
              if text_eq job u.job
              then assigned field l (lookup field (get_job_metadata job r))
              else lookup field (get_job_metadata job r))
      go [] = ground arith
      go (f ∷ l) = ground (
        arith,
        lookup-insert (build_job_meta_key job) (build_job_meta_key u.job)
            (hset isoformat (f ∷ l) (get_job_metadata u.job r)) r.metadata,
        build_job_meta_key-eq job u.job,
        lookup-hset field (f ∷ l) (get_job_metadata u.job r),
        text_eq_iff job u.job,
      )

  -- What is read of any field of any job after any row of updates of the metadata is what the
  -- same updates make of a function of the job and the field, in which the last value that was
  -- given counts.
  pub read-run_updates :
      (l : List Update) (r : Redis) (job field : Text)
      → read (run_updates l r) job field ≡ replay l (read r) job field
  unfolding run_updates replay
  read-run_updates [] r job field = refl
  read-run_updates (u ∷ l) r job field =
      read-run_updates l (update_job_metadata isoformat u.job u.fields r).1 job field
      ∙ ap (λ f. replay l f job field) (fun_ext λ j. fun_ext λ k. read-update u r j k)
