-- ===== src/Domain/Examples.antt =====
-- Values of the domain, tests of its definitions, and the theorems of Calendar, Payment,
-- Subscription and Documents at these values.
use billing_core.Shared.{ℕ, ◌+◌, ◌≤◌, ◌≡◌, refl, List, [], ◌∷◌, none, some, arith}
use billing_core.Shared.Int.{pos, negsuc}
use billing_core.Shared.Texts.{lit, strip}
use billing_core.Shared.Actions.{domain, ok, err}
use billing_core.Domain.Enums.{
  GatewayProvider, PaymentStatus, PaymentType, MovimentationType, SubscriptionStatus,
  SubscriptionType, System,
}
use billing_core.Domain.Calendar.{
  Datetime, days_in_month, instant, is_earlier, latest, add_billing_period, IsValid, ordinal,
  days_before_year, days_before_month,
}
use billing_core.Domain.Calendar.Periods.{
  LeadsTo, add_billing_period-LeadsTo, add_billing_period-later, add_billing_period-defined,
}
use billing_core.Domain.Payment.{
  Payment, Fresh, create_standalone_payment, create_subscription_payment,
}
use billing_core.Domain.Payment.Lifecycle.{
  Command, pay, refund, fail, overdue, run, run_all, Follows, run-Follows, IsSettled,
  run_all-IsSettled, next_statuses, next_statuses-made,
}
use billing_core.Domain.Payment.Invariant.{
  IsSound, run_all-IsSound, create_standalone_payment-IsSound, create_subscription_payment-IsSound,
  run-atomic, brings_negative, pay_negative,
}
use billing_core.Domain.Subscription.{Subscription, mark_as_paid}
use billing_core.Domain.Subscription.Renewal.{
  IsRenewed, mark_as_paid-IsRenewed, mark_as_paid-accepted,
}
use billing_core.Domain.Subscription.Lifecycle

-- A day of the year 2026 at noon in UTC.
abbrev pub day : ℕ → ℕ → Datetime
day m d = record { year = 2026; month = m; day = d; micros = 43_200_000_000; west = 1440 }

day-IsValid : IsValid (day 1 31)
unfolding days_in_month
day-IsValid = omega arith

february : add_billing_period (day 1 31) SubscriptionType.monthly ≡ ok (day 2 28)
unfolding add_billing_period days_in_month
february = refl

add_billing_period-LeadsTo_example : LeadsTo (day 1 31) SubscriptionType.monthly (day 2 28)
add_billing_period-LeadsTo_example =
    add_billing_period-LeadsTo (day 1 31) SubscriptionType.monthly day-IsValid february

add_billing_period-later_example : instant (day 1 31) + 86_400_000_000 ≤ instant (day 2 28)
add_billing_period-later_example =
    add_billing_period-later (day 1 31) SubscriptionType.monthly day-IsValid february

add_billing_period-defined_example :
    (next : Datetime) × (add_billing_period (day 12 31) SubscriptionType.yearly ≡ ok next)
add_billing_period-defined_example =
    add_billing_period-defined (day 12 31) SubscriptionType.yearly (omega arith) (omega arith)

abbrev pub fresh : Fresh
fresh = record {
  description = some (lit " plan ");
  gateway = GatewayProvider.asaas;
  system_payment_id = some (lit "order-7");
  provider_payment_id = some (lit "pay_1");
  value = pos 12990;
  from_system = System.neectify_food;
  checkout_link = none;
}

-- An open payment of a subscription.
abbrev pub open_payment : Payment
open_payment = record {
  id = some 4;
  description = some (lit "plan");
  gateway = GatewayProvider.asaas;
  system_payment_id = lit "order-7";
  provider_payment_id = lit "pay_1";
  value = pos 12990;
  net_value = some (pos 0);
  from_system = System.neectify_food;
  payment_status = PaymentStatus.pending;
  payment_type = PaymentType.credit_card;
  movimentation_type = MovimentationType.subscription_payment;
  paid_date = none;
  canceled_date = none;
  refunded_date = none;
  failed_date = none;
  checkout_link = none;
  subscription_id = some 3;
  webhook_link = none;
  due_date = none;
  external_reference = none;
  created_at = day 1 1;
  updated_at = day 1 1;
}

abbrev pub paid_payment : Payment
paid_payment = record open_payment {
  payment_status = PaymentStatus.paid;
  paid_date = some (day 1 2);
}

abbrev calls : List Command
calls = overdue (day 2 1) ∷ refund (day 2 2) ∷ fail (day 2 3) ∷ []

run_calls : (run_all calls paid_payment).payment_status ≡ PaymentStatus.failed
unfolding run_all run
run_calls = refl

run-Follows_example :
    Follows PaymentStatus.paid (run (refund (day 2 2)) paid_payment).1.payment_status
run-Follows_example = run-Follows (refund (day 2 2)) paid_payment

next_statuses-made_example :
    (c : Command) × ((run c open_payment).1.payment_status ≡ PaymentStatus.paid)
unfolding next_statuses
next_statuses-made_example = next_statuses-made open_payment (day 2 1) PaymentStatus.paid refl

run_all-IsSettled_example : IsSettled (run_all calls paid_payment).payment_status
run_all-IsSettled_example = run_all-IsSettled calls paid_payment refl

run_all-IsSound_example : IsSound (run_all calls paid_payment)
unfolding lit
run_all-IsSound_example = run_all-IsSound calls paid_payment (ground arith)

abbrev standalone : Payment
standalone = record open_payment {
  id = none;
  payment_type = PaymentType.pix;
  movimentation_type = MovimentationType.default_payment;
  subscription_id = none;
  webhook_link = some (lit "https://food/hook");
  external_reference = some (lit "checkout:neectify_food:order-7");
}

create_standalone_payment-IsSound_example : IsSound standalone
unfolding create_standalone_payment lit strip
create_standalone_payment-IsSound_example =
    create_standalone_payment-IsSound fresh (some (lit "https://food/hook")) none
      (lit "checkout:neectify_food:order-7 ") (day 1 1) refl

create_subscription_payment-IsSound_example : IsSound (record open_payment { id = none })
unfolding create_subscription_payment lit strip
create_subscription_payment-IsSound_example =
    create_subscription_payment-IsSound fresh (some 3) PaymentType.credit_card (day 1 1) refl

run-atomic_example : (run (overdue (day 2 1)) paid_payment).1 ≡ paid_payment
unfolding run brings_negative
run-atomic_example =
    run-atomic (overdue (day 2 1)) paid_payment
      {e = domain "Nao e possivel vencer um pagamento ja recebido."} refl refl

pay_negative_example : run (pay none (some (negsuc 4)) (day 1 2) (day 1 2)) open_payment ≡ (
  err (domain "Pagamento nao pode ter valor liquido negativo."),
  record open_payment { payment_status = PaymentStatus.paid; paid_date = some (day 1 2) },
)
pay_negative_example = pay_negative open_payment none 4 (day 1 2) (day 1 2) refl

abbrev pub subscription : Subscription
subscription = record {
  id = some 3;
  initial_date = day 1 1;
  description = lit "plan";
  system_subscription_id = lit "store-9";
  gateway_subscription_id = lit "sub_1";
  gateway_provider = GatewayProvider.asaas;
  status = SubscriptionStatus.active;
  last_paid_date = some (day 1 1);
  from_system = System.neectify_food;
  subscription_type = SubscriptionType.monthly;
  expires_at = day 1 31;
  trial_days = pos 0;
  value = pos 12990;
  trial_ends_at = none;
  next_due_date = none;
  cancelled_at = none;
  cancellation_requested_at = none;
  cancellation_reason = none;
  cancellation_job_id = none;
  webhook_link = none;
}

abbrev renewed : Subscription
renewed = record subscription { last_paid_date = some (day 1 15); expires_at = day 2 28 }

day-fifteen-IsValid : IsValid (day 1 15)
unfolding days_in_month
day-fifteen-IsValid = omega arith

mark_as_paid-IsRenewed_example : IsRenewed subscription (day 1 15) renewed
unfolding mark_as_paid add_billing_period days_in_month latest is_earlier instant ordinal
    days_before_year days_before_month
mark_as_paid-IsRenewed_example =
    mark_as_paid-IsRenewed subscription (day 1 15) day-fifteen-IsValid day-IsValid refl

mark_as_paid-accepted_example : (mark_as_paid (some (day 1 15)) subscription).0 ≡ ok tt
mark_as_paid-accepted_example =
    mark_as_paid-accepted subscription (day 1 15) day-fifteen-IsValid day-IsValid (λ e. cc)
      (omega arith) (omega arith)

abbrev canceled : Subscription
canceled = record subscription {
  status = SubscriptionStatus.canceled;
  cancelled_at = some (day 1 20);
  cancellation_requested_at = some (day 1 19);
}

abbrev subscription_calls : List Lifecycle.Command
subscription_calls =
    Lifecycle.pay (some (day 2 1))
    ∷ Lifecycle.request none none (day 2 2)
    ∷ Lifecycle.finish none none none (day 2 3)
    ∷ []

run_all-canceled_example : Lifecycle.run_all subscription_calls canceled ≡ canceled
run_all-canceled_example = Lifecycle.run_all-canceled subscription_calls canceled refl

run_all-IsDated_example : Lifecycle.IsDated (Lifecycle.run_all subscription_calls subscription)
run_all-IsDated_example = Lifecycle.run_all-IsDated subscription_calls subscription (ground arith)
