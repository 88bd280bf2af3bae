-- ===== src/Domain/Payment/Invariant.antt =====
-- The fields of a payment, from the constructor on and under the methods of
-- app/domain/entities/payment.py.
use billing_core.Shared.{
  ℕ, ◌≡◌, Bool, true, false, List, [], ◌∷◌, Option, some, arith, is_some, or_else,
}
use billing_core.Shared.Int.{pos, negsuc, is_negative, is_nonpositive}
use billing_core.Shared.Texts.{Text, is_empty}
use billing_core.Shared.Actions.{Error, domain, ok, err}
use billing_core.Domain.Enums.{PaymentStatus, PaymentType, one_of}
use billing_core.Domain.Calendar.{Datetime}
use billing_core.Domain.Payment.{
  Payment, Draft, Fresh, construct, create_subscription_payment, create_standalone_payment,
}
use billing_core.Domain.Payment.Lifecycle.{
  Command, cancel, overdue, expire, refund, fail, confirm, pay, renew, run, run_all,
}

-- The conditions of the constructor.
pub record IsValid (p : Payment) : Type 0 where
  pub system_ref : is_empty p.system_payment_id ≡ false
  pub provider_ref : is_empty p.provider_payment_id ≡ false
  pub value_positive : is_nonpositive p.value ≡ false
  pub net_nonnegative : is_negative (or_else p.net_value (pos 0)) ≡ false

-- A payment has the date of the state that it is in.
pub record IsDated (p : Payment) : Type 0 where
  pub when_confirmed : p.payment_status ≡ PaymentStatus.confirmed → is_some p.paid_date ≡ true
  pub when_paid : p.payment_status ≡ PaymentStatus.paid → is_some p.paid_date ≡ true
  pub when_canceled : p.payment_status ≡ PaymentStatus.canceled → is_some p.canceled_date ≡ true
  pub when_refunded : p.payment_status ≡ PaymentStatus.refunded → is_some p.refunded_date ≡ true
  pub when_failed : p.payment_status ≡ PaymentStatus.failed → is_some p.failed_date ≡ true

pub record IsSound (p : Payment) : Type 0 where
  pub valid : IsValid p
  pub dated : IsDated p

-- The constructor refuses every argument that breaks the conditions.
pub construct-IsValid :
    (d : Draft) (now : Datetime) {p : Payment} → construct d now ≡ ok p → IsValid p
unfolding construct
construct-IsValid d now e = ground arith

run-IsValid : (c : Command) (p : Payment) → IsValid p → IsValid (run c p).1
unfolding run
run-IsValid (cancel now) p v = ground arith
run-IsValid (overdue now) p v = ground arith
run-IsValid (expire now) p v = ground arith
run-IsValid (refund now) p v = ground arith
run-IsValid (fail now) p v = ground arith
run-IsValid (confirm date net now later) p v = ground arith
run-IsValid (pay date net now later) p v = ground arith
run-IsValid (renew provider link reference now) p v = ground arith

run-IsDated : (c : Command) (p : Payment) → IsDated p → IsDated (run c p).1
unfolding run
run-IsDated (cancel now) p v = ground arith
run-IsDated (overdue now) p v = ground arith
run-IsDated (expire now) p v = ground arith
run-IsDated (refund now) p v = ground arith
run-IsDated (fail now) p v = ground arith
run-IsDated (confirm date net now later) p v = ground arith
run-IsDated (pay date net now later) p v = ground arith
run-IsDated (renew provider link reference now) p v = ground arith

-- A payment with valid identifiers and amounts, and with the date of the state that it is in,
-- keeps both under any calls of the methods, raising or not.
pub run_all-IsSound : (cs : List Command) (p : Payment) → IsSound p → IsSound (run_all cs p)
unfolding run_all
run_all-IsSound [] p s = s
run_all-IsSound (c ∷ cs) p s =
    run_all-IsSound cs (run c p).1
      (record { valid = run-IsValid c p s.valid; dated = run-IsDated c p s.dated })

-- A payment that create_subscription_payment makes has valid identifiers and amounts, and the
-- date of its state.
pub create_subscription_payment-IsSound :
    (f : Fresh) (subscription : Option ℕ) (kind : PaymentType) (now : Datetime) {p : Payment}
    → create_subscription_payment f subscription kind now ≡ ok p
    → IsSound p
unfolding create_subscription_payment
create_subscription_payment-IsSound f subscription kind now e = ground arith

-- A payment that create_standalone_payment makes has valid identifiers and amounts, and the date
-- of its state.
pub create_standalone_payment-IsSound :
    (f : Fresh) (link : Option Text) (due : Option Datetime) (ref : Text) (now : Datetime)
    {p : Payment}
    → create_standalone_payment f link due ref now ≡ ok p
    → IsSound p
unfolding create_standalone_payment
create_standalone_payment-IsSound f link due ref now e = ground arith

-- The net value that a call brings, if it is negative.
unfoldable pub brings_negative : Command → Bool
brings_negative (confirm date net now later) = is_negative (or_else net (pos 0))
brings_negative (pay date net now later) = is_negative (or_else net (pos 0))
brings_negative _ = false

-- A call of a method that raises leaves the payment as it was, if it brings no negative net
-- value.
pub run-atomic :
    (c : Command) (p : Payment) {e : Error}
    → brings_negative c ≡ false
    → (run c p).0 ≡ err e
    → (run c p).1 ≡ p
unfolding run brings_negative
run-atomic (cancel now) p b h = ground arith
run-atomic (overdue now) p b h = ground arith
run-atomic (expire now) p b h = ground arith
run-atomic (refund now) p b h = ground arith
run-atomic (fail now) p b h = ground arith
run-atomic (confirm date net now later) p b h = ground arith
run-atomic (pay date net now later) p b h = ground arith
run-atomic (renew provider link reference now) p b h = ground arith

-- Mark_as_paid with a negative net value, on a payment that is pending, overdue or confirmed,
-- raises and yet leaves the payment paid, with a date of payment.
pub pay_negative :
    (p : Payment) (date : Option Datetime) (n : ℕ) (now later : Datetime)
    → one_of p.payment_status
        (PaymentStatus.pending ∷ PaymentStatus.overdue ∷ PaymentStatus.confirmed ∷ [])
      ≡ true
    → run (pay date (some (negsuc n)) now later) p ≡ (
      err (domain "Pagamento nao pode ter valor liquido negativo."),
      record p { payment_status = PaymentStatus.paid; paid_date = some (or_else date now) },
    )
unfolding run
pay_negative p date n now later h = ground arith
