-- ===== src/Domain/Payment/Lifecycle.antt =====
-- The status of a payment as a state machine: which moves the methods make, and what a payment
-- whose money has arrived can still become.
use billing_core.Shared.{◌≡◌, ◌⊎◌, true, List, [], ◌∷◌, Option, none, some, arith}
use billing_core.Shared.Int.{ℤ}
use billing_core.Shared.Texts.{Text, strip}
use billing_core.Shared.Actions.{Action}
use billing_core.Domain.Enums.{PaymentStatus, one_of}
use billing_core.Domain.Calendar.{Datetime}
use billing_core.Domain.Payment.{Payment}
use billing_core.Domain.Payment.Methods.{
  mark_as_canceled, mark_as_confirmed, mark_as_overdue, mark_as_expired, mark_as_paid,
  mark_as_refunded, mark_as_failed, renew_checkout,
}

-- A call of a method, with its arguments.
pub data Command : Type 0 where
  cancel overdue expire refund fail : Datetime → Command
  confirm pay : Option Datetime → Option ℤ → Datetime → Datetime → Command
  renew : Option Text → Option Text → Text → Datetime → Command

unfoldable pub run : Command → Action Payment Unit
unfolding mark_as_canceled mark_as_overdue mark_as_expired mark_as_refunded mark_as_failed
    mark_as_confirmed mark_as_paid renew_checkout
run (cancel now) = mark_as_canceled now
run (overdue now) = mark_as_overdue now
run (expire now) = mark_as_expired now
run (refund now) = mark_as_refunded now
run (fail now) = mark_as_failed now
run (confirm date net now later) = mark_as_confirmed date net now later
run (pay date net now later) = mark_as_paid date net now later
run (renew provider link reference now) = renew_checkout provider link reference now

-- Any calls, each of which may raise.
unfoldable pub run_all : List Command → Payment → Payment
run_all [] p = p
run_all (c ∷ cs) p = run_all cs (run c p).1

-- The moves, as a table.
unfoldable pub next_statuses : PaymentStatus → List PaymentStatus
next_statuses PaymentStatus.pending =
    PaymentStatus.confirmed ∷ PaymentStatus.paid ∷ PaymentStatus.overdue ∷ PaymentStatus.canceled
    ∷ PaymentStatus.expired ∷ PaymentStatus.failed ∷ []
next_statuses PaymentStatus.confirmed =
    PaymentStatus.paid ∷ PaymentStatus.overdue ∷ PaymentStatus.canceled ∷ PaymentStatus.refunded
    ∷ PaymentStatus.failed ∷ []
next_statuses PaymentStatus.paid = PaymentStatus.refunded ∷ []
next_statuses PaymentStatus.overdue =
    PaymentStatus.confirmed ∷ PaymentStatus.paid ∷ PaymentStatus.canceled ∷ PaymentStatus.expired
    ∷ PaymentStatus.failed ∷ []
next_statuses PaymentStatus.failed = []
next_statuses PaymentStatus.canceled = PaymentStatus.pending ∷ PaymentStatus.failed ∷ []
next_statuses PaymentStatus.expired =
    PaymentStatus.pending ∷ PaymentStatus.overdue ∷ PaymentStatus.failed ∷ []
next_statuses PaymentStatus.refunded = PaymentStatus.failed ∷ []

abbrev pub Follows : PaymentStatus → PaymentStatus → Type 0
Follows a b = (b ≡ a) ⊎ (one_of b (next_statuses a) ≡ true)

-- A call of a method of a payment, raising or not, leaves the status or makes a move of the
-- table next_statuses.
pub run-Follows : (c : Command) (p : Payment) → Follows p.payment_status (run c p).1.payment_status
unfolding run next_statuses
run-Follows (cancel now) p = ground arith
run-Follows (overdue now) p = ground arith
run-Follows (expire now) p = ground arith
run-Follows (refund now) p = ground arith
run-Follows (fail now) p = ground arith
run-Follows (confirm date net now later) p = ground arith
run-Follows (pay date net now later) p = ground arith
run-Follows (renew provider link reference now) p = ground arith

-- A payment whose money has arrived: it may be refunded, and then marked as failed.
abbrev pub IsSettled : PaymentStatus → Type 0
IsSettled s =
    one_of s (PaymentStatus.paid ∷ PaymentStatus.refunded ∷ PaymentStatus.failed ∷ []) ≡ true

Follows-IsSettled : (a b : PaymentStatus) → Follows a b → IsSettled a → IsSettled b
unfolding next_statuses
Follows-IsSettled a b f h = ground arith

-- A payment that is paid, refunded or failed stays one of these under any calls of the methods,
-- in any order.
pub run_all-IsSettled :
    (cs : List Command) (p : Payment)
    → IsSettled p.payment_status
    → IsSettled (run_all cs p).payment_status
unfolding run_all
run_all-IsSettled [] p h = h
run_all-IsSettled (c ∷ cs) p h =
    run_all-IsSettled cs (run c p).1
      (Follows-IsSettled p.payment_status (run c p).1.payment_status (run-Follows c p) h)

-- A call that takes a payment to a status.
reach : Datetime → PaymentStatus → Command
reach now PaymentStatus.pending = renew (some (b'x' ∷ [])) none [] now
reach now PaymentStatus.confirmed = confirm none none now now
reach now PaymentStatus.paid = pay none none now now
reach now PaymentStatus.overdue = overdue now
reach now PaymentStatus.failed = fail now
reach now PaymentStatus.canceled = cancel now
reach now PaymentStatus.expired = expire now
reach now PaymentStatus.refunded = refund now

reach-made :
    (p : Payment) (now : Datetime) (b : PaymentStatus)
    → one_of b (next_statuses p.payment_status) ≡ true
    → (run (reach now b) p).1.payment_status ≡ b
unfolding run next_statuses reach strip
reach-made p now PaymentStatus.pending h = ground arith
reach-made p now PaymentStatus.confirmed h = ground arith
reach-made p now PaymentStatus.paid h = ground arith
reach-made p now PaymentStatus.overdue h = ground arith
reach-made p now PaymentStatus.failed h = ground arith
reach-made p now PaymentStatus.canceled h = ground arith
reach-made p now PaymentStatus.expired h = ground arith
reach-made p now PaymentStatus.refunded h = ground arith

-- Every move of the table next_statuses is made by a call of a method, at any time.
pub next_statuses-made :
    (p : Payment) (now : Datetime) (b : PaymentStatus)
    → one_of b (next_statuses p.payment_status) ≡ true
    → (c : Command) × ((run c p).1.payment_status ≡ b)
next_statuses-made p now b h = (reach now b, reach-made p now b h)
