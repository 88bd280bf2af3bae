-- ===== src/Workers/Examples/Sending.antt =====
-- A stored delivery that is sent.
use billing_core.Shared.{refl, [], any}
use billing_core.Shared.Texts.{lit, strip, text_eq}
use billing_core.Shared.Actions.{ok}
use billing_core.Store.Tables.{find_key}
use billing_core.Store.Tables.Uniqueness.{is_table}
use billing_core.Workers.Sending.{send_internal_webhook}
use billing_core.Workers.Sending.Stored.{Holds}
use billing_core.Workers.Sending.Sent.{IsSent, send_internal_webhook-IsSent}
use billing_core.Workers.Examples.{sending, job, redis, delivery, stored}

stored-Holds : Holds 7 delivery stored
unfolding find_key is_table any strip lit text_eq
stored-Holds = record {
  found = refl;
  kept = refl;
  keyed = refl;
  clean = record {
    key = refl;
    event = refl;
    url = refl;
    has_key = refl;
    has_event = refl;
    has_url = refl;
  };
}

send_internal_webhook-IsSent_example :
    IsSent sending job 7 delivery
      (ok tt)
      (send_internal_webhook sending job
        (lit "7")
        (record { db = stored; faults = []; redis = redis })).1.db
send_internal_webhook-IsSent_example =
    send_internal_webhook-IsSent sending job (lit "7") 7 delivery stored redis refl stored-Holds
