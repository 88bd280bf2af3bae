-- ===== src/Domain/Subscription/Lifecycle.antt =====
-- The status of a subscription as a state machine.
use billing_core.Shared.{◌≡◌, refl, true, List, [], ◌∷◌, Option, none, some, arith, is_some}
use billing_core.Shared.Texts.{Text}
use billing_core.Shared.Actions.{Action}
use billing_core.Domain.Enums.{SubscriptionStatus}
use billing_core.Domain.Calendar.{Datetime}
use billing_core.Domain.Subscription.{Subscription, mark_as_paid, request_cancellation, cancel}

-- A call of a method, with its arguments.
pub data Command : Type 0 where
  pay : Option Datetime → Command
  request : Option Text → Option Text → Datetime → Command
  finish : Option Datetime → Option Text → Option Text → Datetime → Command

unfoldable pub run : Command → Action Subscription Unit
unfolding mark_as_paid request_cancellation cancel
run (pay date) = mark_as_paid date
run (request reason job now) = request_cancellation reason job now
run (finish at reason job now) = cancel at reason job now

-- Any calls, each of which may raise.
unfoldable pub run_all : List Command → Subscription → Subscription
run_all [] s = s
run_all (c ∷ cs) s = run_all cs (run c s).1

run-canceled :
    (c : Command) (s : Subscription) → s.status ≡ SubscriptionStatus.canceled → (run c s).1 ≡ s
unfolding run
run-canceled (pay none) s h = ground arith
run-canceled (pay (some date)) s h = ground arith
run-canceled (request reason job now) s h = ground arith
run-canceled (finish at reason job now) s h = ground arith

-- No calls of the methods, in any order, change anything of a canceled subscription.
pub run_all-canceled :
    (cs : List Command) (s : Subscription)
    → s.status ≡ SubscriptionStatus.canceled
    → run_all cs s ≡ s
unfolding run_all
run_all-canceled [] s h = refl
run_all-canceled (c ∷ cs) s h =
    let e : (run c s).1 ≡ s = run-canceled c s h in rw e (run_all-canceled cs s h)

-- A subscription has the dates of the state that it is in.
pub record IsDated (s : Subscription) : Type 0 where
  pub when_pending :
      s.status ≡ SubscriptionStatus.cancellation_pending
      → is_some s.cancellation_requested_at ≡ true
  pub when_requested :
      s.status ≡ SubscriptionStatus.canceled → is_some s.cancellation_requested_at ≡ true
  pub when_canceled : s.status ≡ SubscriptionStatus.canceled → is_some s.cancelled_at ≡ true
  pub when_active : s.status ≡ SubscriptionStatus.active → is_some s.last_paid_date ≡ true

run-IsDated : (c : Command) (s : Subscription) → IsDated s → IsDated (run c s).1
unfolding run
run-IsDated (pay none) s v = ground arith
run-IsDated (pay (some date)) s v = ground arith
run-IsDated (request reason job now) s v = ground arith
run-IsDated (finish at reason job now) s v = ground arith

-- A subscription that has the dates of the state that it is in keeps them under any calls of the
-- methods, raising or not.
pub run_all-IsDated : (cs : List Command) (s : Subscription) → IsDated s → IsDated (run_all cs s)
unfolding run_all
run_all-IsDated [] s v = v
run_all-IsDated (c ∷ cs) s v = run_all-IsDated cs (run c s).1 (run-IsDated c s v)
