-- ===== src/Workers/Redis.antt =====
-- The keys that the jobs keep in Redis, and app/infra/jobs.py: the metadata of a job, a hash of
-- texts, and the dead letters. The server is taken to answer. Its scores and times to live are
-- left out: a key that expires is a step of its own.
pub mod Metadata
use billing_core.Shared.{
  ℕ, ◌+◌, ◌/◌, ◌%◌, zero, suc, Bool, true, false, List, [], ◌∷◌, ◌++◌, Option, none, some, ltb,
  if◌then◌else◌, is_some, ◌&&◌, any,
}
use billing_core.Shared.Texts.{Text, lit, text_eq}
use billing_core.Shared.Dict.{Dict, lookup, insert, erase}
use billing_core.Shared.Actions.{Action, pure}
use billing_core.Domain.Calendar.{Datetime}

-- `dead_letters` are the members of each sorted set, `queue` the deliveries that are to be sent.
pub record Redis : Type 0 where
  pub locks : Dict Text
  pub metadata : Dict (Dict Text)
  pub dead_letters : List (Text × Text)
  pub queue : List ℕ

-- `set(key, value, nx=True)`: whether the key was set.
unfoldable pub set_nx : Text → Text → Action Redis Bool
unfolding pure
set_nx key value r =
    if is_some (lookup key r.locks)
    then pure false r
    else pure true (record r { locks = insert key value r.locks })

unfoldable pub get : Text → Action Redis (Option Text)
unfolding pure
get key r = pure (lookup key r.locks) r

unfoldable pub delete : Text → Action Redis Unit
unfolding pure
delete key r = pure tt (record r { locks = erase key r.locks })

-- `enqueue_job("workers:tasks.send_internal_webhook", …)`
unfoldable pub enqueue_job : ℕ → Action Redis Unit
unfolding pure
enqueue_job delivery_id r = pure tt (record r { queue = r.queue ++ (delivery_id ∷ []) })

-- The values of the fields of the metadata.
pub data FieldValue : Type 0 where
  nothing : FieldValue
  instant : Datetime → FieldValue
  number : ℕ → FieldValue
  text : Text → FieldValue

-- `str(n)`, on fuel: a number has fewer digits than its successor.
digits : ℕ → ℕ → Text
digits zero n = []
digits (suc fuel) n =
    let rest = digits fuel (n / 10) in
    if ltb n 10 then (b'0' + n) ∷ [] else rest ++ ((b'0' + n % 10) ∷ [])

unfoldable pub str : ℕ → Text
unfolding digits
str n = digits (suc n) n

module _ (isoformat : Datetime → Text) where
  -- `_serialize_value`. `isoformat` is the text of a datetime in UTC.
  unfoldable pub serialize_value : FieldValue → Text
  serialize_value nothing = []
  serialize_value (instant t) = isoformat t
  serialize_value (number n) = str n
  serialize_value (text s) = s

  -- `hset` of a mapping
  unfoldable pub hset : List (Text × FieldValue) → Dict Text → Dict Text
  hset [] hash = hash
  hset ((key, value) ∷ fields) hash = hset fields (insert key (serialize_value value) hash)

abbrev pub hash_of : Option (Dict Text) → Dict Text
hash_of none = []
hash_of (some hash) = hash

-- `build_job_meta_key`
unfoldable pub build_job_meta_key : Text → Text
build_job_meta_key job_id = lit "billing_core:job_meta" ++ (b':' ∷ job_id)

unfoldable pub get_job_metadata : Text → Redis → Dict Text
get_job_metadata job_id r = hash_of (lookup (build_job_meta_key job_id) r.metadata)

module _ (isoformat : Datetime → Text) where
  unfoldable pub update_job_metadata : Text → List (Text × FieldValue) → Action Redis Unit
  unfolding pure
  update_job_metadata job_id [] r = pure tt r
  update_job_metadata job_id (field ∷ fields) r = pure tt (record r {
    metadata =
        insert (build_job_meta_key job_id)
          (hset isoformat (field ∷ fields) (get_job_metadata job_id r)) r.metadata;
  })

unfoldable pub is_dead : Text → Text → Redis → Bool
is_dead job_name job_id r = any (λ (n, i). text_eq n job_name && text_eq i job_id) r.dead_letters

-- `zadd` to a set: a member that is there only gets a new score.
unfoldable pub register_dead_letter : Text → Text → Action Redis Unit
unfolding pure
register_dead_letter job_name job_id r = pure tt (
    if is_dead job_name job_id r
    then r
    else record r { dead_letters = (job_name, job_id) ∷ r.dead_letters })
