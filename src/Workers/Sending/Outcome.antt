-- ===== src/Workers/Sending/Outcome.antt =====
-- What stands in the table of a delivery when the job that sends it has ended, where the connection
-- to the database holds.
use billing_core.Shared.{ℕ, ◌≡◌, refl, ◌∙◌, Bool, true, false, ◌||◌, [], if◌then◌else◌}
use billing_core.Shared.Texts.{Text, lit}
use billing_core.Shared.Actions.{
  Error, Result, ok, err, Action, pure, lift, attempt, try_then, ◌>>=◌, ◌>>◌,
}
use billing_core.Domain.Delivery.{
  Delivery, register_attempt, mark_retrying, mark_failed, mark_delivered,
}
use billing_core.Store.Session.{Db, statement, commit, save}
use billing_core.Store.Repositories.{deliveries}
use billing_core.Workers.Redis.{Redis, update_job_metadata}
use billing_core.Workers.World.{World, Job, on_redis, run_session}
use billing_core.Workers.Account.{is_rejection, start_job, complete_job, reject_job, retry_job}
use billing_core.Workers.Account.Frames.{reject_job-db, retry_job-db}
use billing_core.Workers.Sending.{
  SendEnv, webhook_id, send_delivery, deliver, failure_written, write_failure, is_final_try,
  send_failed, send_internal_webhook,
}
use billing_core.Workers.Sending.Stored.{
  Holds, SameRow, holding, rewritten, get_by_key-Holds, save-Holds, rewritten-Holds,
}

module _ (env : SendEnv) (job : Job) where
  -- The delivery when it is sent.
  abbrev pub attempted : Delivery → Delivery
  attempted d = register_attempt (env.account.now 2) d

  -- The delivery by what came of sending it.
  unfoldable pub settled : Delivery → Result (Unit {0}) → Delivery
  settled d (ok u) = mark_delivered (env.account.now 3) (attempted d)
  settled d (err e) =
      if is_rejection e || is_final_try env job
      then mark_failed (env.account.message e) (env.account.now 4) (attempted d)
      else mark_retrying (env.account.message e) (env.account.now 4) (attempted d)

  abbrev pub sent : Delivery → Result (Unit {0})
  sent d = env.send d.target_url d.payload (webhook_id env job d) d.event_type

  attempted-SameRow : (d : Delivery) → SameRow d (attempted d)
  unfolding register_attempt
  attempted-SameRow d = record { row = refl; keyed = refl; dedupe = refl; event = refl; url = refl }

  module _ (delivery_id : Text) (n : ℕ) (d : Delivery) (b : Db)
      (parsed : env.parse_uuid delivery_id ≡ ok n) (holds : Holds n d b) where
    abbrev after_attempt : Db
    after_attempt = rewritten n (attempted d) b

    attempt-Holds : Holds n (attempted d) after_attempt
    attempt-Holds = rewritten-Holds n d (attempted d) b holds (attempted-SameRow d)

    deliver-sends :
        deliver env job delivery_id (holding b b)
        ≡ (lift (sent d)
              >> (save deliveries (mark_delivered (env.account.now 3) (attempted d)) >> commit))
            (holding after_attempt after_attempt)
    unfolding deliver send_delivery ◌>>=◌ lift register_attempt commit statement
    deliver-sends =
        rw
          (
            parsed,
            get_by_key-Holds n d b b holds,
            save-Holds n d (attempted d) b b holds (attempted-SameRow d),
          )
          refl

    -- The two ends of the session.
    deliver-delivered :
        {u : Unit {0}}
        → sent d ≡ ok u
        → deliver env job delivery_id (holding b b) ≡ (
          ok tt,
          holding
              (rewritten n (settled d (ok tt)) after_attempt)
              (rewritten n (settled d (ok tt)) after_attempt),
        )
    unfolding ◌>>=◌ lift settled mark_delivered register_attempt commit statement
    deliver-delivered h =
        deliver-sends
        ∙ rw
            (
              h,
              save-Holds n (attempted d) (settled d (ok tt)) after_attempt after_attempt
                  attempt-Holds
                  (record { row = refl; keyed = refl; dedupe = refl; event = refl; url = refl }),
            )
            refl

    deliver-failed :
        {e : Error}
        → sent d ≡ err e
        → deliver env job delivery_id (holding b b) ≡ (err e, holding after_attempt after_attempt)
    unfolding ◌>>=◌ lift
    deliver-failed h = deliver-sends ∙ rw h refl

    -- What the second session writes.
    failure_written-Holds :
        (change : Delivery → Delivery)
        → SameRow (attempted d) (change (attempted d))
        → failure_written env job change delivery_id (holding after_attempt after_attempt) ≡ (
          ok tt,
          holding
              (rewritten n (change (attempted d)) after_attempt)
              (rewritten n (change (attempted d)) after_attempt),
        )
    unfolding failure_written attempt ◌>>=◌ lift commit statement
    failure_written-Holds change same =
        rw
          (
            parsed,
            get_by_key-Holds n (attempted d) after_attempt after_attempt attempt-Holds,
            save-Holds n (attempted d) (change (attempted d)) after_attempt after_attempt
                attempt-Holds same,
          )
          refl

    abbrev holding_world : Db → Redis → World
    holding_world c r = record { db = c; faults = []; redis = r }

    write_failure-Holds :
        (change : Delivery → Delivery) (r : Redis)
        → SameRow (attempted d) (change (attempted d))
        → write_failure env job change delivery_id (holding_world after_attempt r)
          ≡ (ok tt, holding_world (rewritten n (change (attempted d)) after_attempt) r)
    unfolding write_failure run_session
    write_failure-Holds change r same = rw (failure_written-Holds change same) refl

    -- A job that has written a failure, and what follows it.
    failed-Holds :
        {A : Type 0} (change : Delivery → Delivery) (r : Redis) (m : Action World A)
        → SameRow (attempted d) (change (attempted d))
        → ((w : World) → (m w).1.db ≡ w.db)
        → Holds n
            (change (attempted d))
            ((write_failure env job change delivery_id >> m) (holding_world after_attempt r)).1.db
    unfolding ◌>>=◌
    failed-Holds change r m same keeps =
        rw (write_failure-Holds change r same, keeps)
          (rewritten-Holds n (attempted d) (change (attempted d)) after_attempt attempt-Holds same)

    send_failed-Holds :
        (e : Error) (r : Redis)
        → Holds n
            (settled d (err e))
            (send_failed env job delivery_id e (holding_world after_attempt r)).1.db
    unfolding send_failed settled mark_failed mark_retrying
    send_failed-Holds e r = go (is_rejection e) (is_final_try env job)
      where
        for_good : Delivery → Delivery
        for_good = mark_failed (env.account.message e) (env.account.now 4)

        later : Delivery → Delivery
        later = mark_retrying (env.account.message e) (env.account.now 4)

        good : SameRow (attempted d) (for_good (attempted d))
        good = record { row = refl; keyed = refl; dedupe = refl; event = refl; url = refl }

        waits : SameRow (attempted d) (later (attempted d))
        waits = record { row = refl; keyed = refl; dedupe = refl; event = refl; url = refl }

        go :
            (rejected final : Bool)
            → Holds n
                (if rejected || final then for_good (attempted d) else later (attempted d))
                ((if rejected
                    then write_failure env job for_good delivery_id
                      >> reject_job env.account job {A = Text} (lit "send_internal_webhook") e
                    else write_failure env job (if final then for_good else later) delivery_id
                      >> retry_job env.account job {A = Text}
                          (lit "send_internal_webhook")
                          env.account.settings.internal_webhook_max_tries
                          e)
                  (holding_world after_attempt r)).1.db
        go true final =
            failed-Holds for_good r _ good (λ w. reject_job-db Text env.account job _ e w)
        go false true =
            failed-Holds for_good r _ good (λ w. retry_job-db Text env.account job _ _ e w)
        go false false =
            failed-Holds later r _ waits (λ w. retry_job-db Text env.account job _ _ e w)

    -- The row of the delivery, by what came of sending it.
    pub send_internal_webhook-Holds :
        (r : Redis)
        → Holds n
            (settled d (sent d))
            (send_internal_webhook env job delivery_id (holding_world b r)).1.db
    unfolding send_internal_webhook start_job on_redis update_job_metadata ◌>>=◌ try_then
        run_session complete_job pure settled mark_delivered
    send_internal_webhook-Holds r = go (sent d) refl
      where
        go :
            (a : Result (Unit {0}))
            → sent d ≡ a
            → Holds n
                (settled d a)
                (send_internal_webhook env job delivery_id (holding_world b r)).1.db
        go (ok u) h = rw (deliver-delivered h) (
            rewritten-Holds n (attempted d) (settled d (ok tt)) after_attempt attempt-Holds
              (record { row = refl; keyed = refl; dedupe = refl; event = refl; url = refl }))
        go (err e) h = rw (deliver-failed h) (send_failed-Holds e _)
