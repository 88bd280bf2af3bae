-- ===== src/Workers/Sending/Reported.antt =====
-- The account of the job that sends a delivery.
use billing_core.Shared.{ℕ, ◌≡◌, refl, none}
use billing_core.Shared.Texts.{Text}
use billing_core.Shared.Actions.{Error, Result, ok, err, Action, handled, attempt}
use billing_core.Domain.Delivery.{Delivery}
use billing_core.Store.Session.{Session, rollback}
use billing_core.Workers.World.{Job, success, run_session}
use billing_core.Workers.Account.{start_job}
use billing_core.Workers.Account.Reported.{Reported, Runs, Runs-update, status_after, is_given_up}
use billing_core.Workers.Account.Ends.{
  Closes-pure, Reported-complete, Reported-if, Reported-reject, Reported-retry,
}
use billing_core.Workers.Account.Rules.{Reported-try, Reported-after}
use billing_core.Workers.Sending.{
  SendEnv, failure_written, write_failure, send_failed, send_internal_webhook,
}

attempt-rollback : (m : Action Session Unit) (s : Session) → (attempt m (λ e. rollback) s).0 ≡ ok tt
unfolding attempt rollback
attempt-rollback m s = go (m s).0 (m s).1
  where
    go : (r : Result Unit) (t : Session) → (handled r (λ e. rollback) t).0 ≡ ok tt
    go (ok u) t = refl
    go (err e) t = refl

module _ (env : SendEnv) (job : Job) where
  -- The exceptions of the second session are dropped.
  Runs-write_failure :
      (change : Delivery → Delivery) (i : Text) → Runs (write_failure env job change i)
  unfolding write_failure run_session failure_written
  Runs-write_failure change i w = attempt-rollback _ _

  abbrev tries : ℕ
  tries = env.account.settings.internal_webhook_max_tries

  send_failed-Reported : (i : Text) (e : Error) → Reported tries job (send_failed env job i e)
  unfolding send_failed
  send_failed-Reported i e =
      Reported-if env.account job tries _ _ _
        (Reported-after _ _ (Runs-write_failure _ i) λ u. Reported-reject env.account job tries _ e)
        (Reported-after _ _ (Runs-write_failure _ i) λ u. Reported-retry env.account job tries _ e)

  pub send_internal_webhook-Reported :
      (delivery_id : Text) → Reported tries job (send_internal_webhook env job delivery_id)
  unfolding send_internal_webhook start_job status_after is_given_up
  send_internal_webhook-Reported delivery_id =
      Reported-after _ _ (Runs-update env.account job _) λ u.
        Reported-try _ _ _ (send_failed-Reported delivery_id) λ v.
          Reported-complete env.account job tries _ (success delivery_id none) (Closes-pure _) refl
            refl
