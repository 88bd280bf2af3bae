-- ===== src/Workers/Sending/Sent.antt =====
-- What a delivery is when the job that sends it has ended: its tries, its status and its error, by
-- what came of sending it.
use Prim.Native.String.{String}
use billing_core.Shared.{
  ℕ, ◌+◌, ◌<◌, ◌≤◌, ◌≡◌, refl, Bool, true, false, ◌||◌, leb, none, some, arith, [], if◌then◌else◌,
}
use billing_core.Shared.Texts.{Text}
use billing_core.Shared.Actions.{Error, domain, not_found, value_error, Result, ok, err}
use billing_core.Domain.Enums.{DeliveryStatus}
use billing_core.Domain.Delivery.{
  Delivery, register_attempt, mark_retrying, mark_failed, mark_delivered,
}
use billing_core.Store.Session.{Db, opened}
use billing_core.Workers.Redis.{Redis}
use billing_core.Workers.World.{Job}
use billing_core.Workers.Account.{is_rejection}
use billing_core.Workers.Sending.{SendEnv, delivery_by_id, is_final_try, send_internal_webhook}
use billing_core.Workers.Sending.Stored.{Holds, get_by_key-Holds}
use billing_core.Workers.Sending.Outcome.{attempted, settled, sent, send_internal_webhook-Holds}

-- The errors that no retry changes.
pub data IsLasting : Error → Type 0 where
  is_rule : (m : String) → IsLasting (domain m)
  is_missing : (m : String) → IsLasting (not_found m)
  is_wrong_value : (m : String) → IsLasting (value_error m)

is_rejection-IsLasting : (e : Error) → is_rejection e ≡ true → IsLasting e
is_rejection-IsLasting (domain m) h = is_rule m
is_rejection-IsLasting (not_found m) h = is_missing m
is_rejection-IsLasting (value_error m) h = is_wrong_value m
is_rejection-IsLasting (Error.type_error m) h = ground arith
is_rejection-IsLasting Error.key_error h = ground arith
is_rejection-IsLasting Error.integrity h = ground arith
is_rejection-IsLasting Error.multiple_rows h = ground arith
is_rejection-IsLasting Error.database h = ground arith
is_rejection-IsLasting (Error.gateway_api n t) h = ground arith
is_rejection-IsLasting Error.request_failed h = ground arith
is_rejection-IsLasting Error.request_unsent h = ground arith

IsLasting-rejection : {e : Error} → IsLasting e → is_rejection e ≡ true
IsLasting-rejection (is_rule m) = refl
IsLasting-rejection (is_missing m) = refl
IsLasting-rejection (is_wrong_value m) = refl

module _ (env : SendEnv) (job : Job) where
  -- The delivery `e` after a sending that gave `a`.
  pub data Settles (e : Delivery) (a : Result (Unit {0})) : Type 0 where
    is_taken :
        a ≡ ok tt
        → e.status ≡ DeliveryStatus.delivered
        → e.last_error ≡ none
        → e.delivered_at ≡ some (env.account.now 3)
        → Settles e a
    is_refused :
        {x : Error} → a ≡ err x → IsLasting x → e.status ≡ DeliveryStatus.failed → Settles e a
    is_last :
        {x : Error}
        → a ≡ err x
        → env.account.settings.internal_webhook_max_tries ≤ job.job_try
        → e.status ≡ DeliveryStatus.failed
        → Settles e a
    is_waiting :
        {x : Error}
        → a ≡ err x
        → (IsLasting x → ⊥)
        → job.job_try < env.account.settings.internal_webhook_max_tries
        → e.status ≡ DeliveryStatus.retrying
        → Settles e a

  -- The delivery `e` is `d` after one more try.
  pub record IsTried (d e : Delivery) : Type 0 where
    pub counted : e.attempt_count ≡ d.attempt_count + 1
    pub tried_at : e.last_attempt_at ≡ some (env.account.now 2)
    pub dedupe : e.dedupe_key ≡ d.dedupe_key
    pub event : e.event_type ≡ d.event_type
    pub url : e.target_url ≡ d.target_url
    pub same_payload : e.payload ≡ d.payload

  -- The delivery that is read under the key `n` is `d` after one more try, which gave `a`.
  pub record IsSent (n : ℕ) (d : Delivery) (a : Result (Unit {0})) (b : Db) : Type 0 where
    pub row : Delivery
    pub read : delivery_by_id n (opened b) ≡ (ok row, opened b)
    pub stored : Holds n row b
    pub tried : IsTried d row
    pub settles : Settles row a

  settled-Settles : (d : Delivery) (a : Result (Unit {0})) → Settles (settled env job d a) a
  unfolding settled is_final_try mark_delivered mark_failed mark_retrying
  settled-Settles d (ok u) = is_taken refl refl refl refl
  settled-Settles d (err x) =
      go (is_rejection x) refl (leb env.account.settings.internal_webhook_max_tries job.job_try)
        refl
    where
      go :
          (r : Bool)
          → is_rejection x ≡ r
          → (f : Bool) → leb env.account.settings.internal_webhook_max_tries job.job_try ≡ f
          → Settles
              (if r || f
                then mark_failed (env.account.message x) (env.account.now 4) (attempted env job d)
                else mark_retrying
                    (env.account.message x)
                    (env.account.now 4)
                    (attempted env job d))
              (err x)
      go true h f k = is_refused refl (is_rejection-IsLasting x h) refl
      go false h true k = is_last refl (ground arith) refl
      go false h false k =
          is_waiting refl (λ l. let t = IsLasting-rejection l in ground arith) (ground arith) refl

  settled-IsTried : (d : Delivery) (a : Result (Unit {0})) → IsTried d (settled env job d a)
  unfolding settled register_attempt mark_delivered mark_failed mark_retrying
  settled-IsTried d (ok u) = record {
    counted = refl;
    tried_at = refl;
    dedupe = refl;
    event = refl;
    url = refl;
    same_payload = refl;
  }
  settled-IsTried d (err x) = go (is_rejection x || is_final_try env job)
    where
      go :
          (f : Bool)
          → IsTried d (
              if f
              then mark_failed (env.account.message x) (env.account.now 4) (attempted env job d)
              else mark_retrying (env.account.message x) (env.account.now 4) (attempted env job d))
      go true = record {
        counted = refl;
        tried_at = refl;
        dedupe = refl;
        event = refl;
        url = refl;
        same_payload = refl;
      }
      go false = record {
        counted = refl;
        tried_at = refl;
        dedupe = refl;
        event = refl;
        url = refl;
        same_payload = refl;
      }

  -- When the connection to the database holds, sending a stored delivery leaves it in the
  -- database, where it is read under its key with one more try and with what was sent unchanged:
  -- as delivered, without an error, if the system took it; as failed if the error is a domain
  -- error, a missing object or a wrong value, or if the try was the last that the settings
  -- allow; and as to be tried again otherwise. The table keeps its constraints.
  pub send_internal_webhook-IsSent :
      (delivery_id : Text) (n : ℕ) (d : Delivery) (b : Db) (r : Redis)
      → env.parse_uuid delivery_id ≡ ok n
      → Holds n d b
      → IsSent n d
          (sent env job d)
          (send_internal_webhook env job delivery_id
            (record { db = b; faults = []; redis = r })).1.db
  send_internal_webhook-IsSent delivery_id n d b r parsed holds =
      let h = send_internal_webhook-Holds env job delivery_id n d b parsed holds r in
      record {
        row = settled env job d (sent env job d);
        read = get_by_key-Holds n _ _ _ h;
        stored = h;
        tried = settled-IsTried d (sent env job d);
        settles = settled-Settles d (sent env job d);
      }
