-- ===== src/UseCases/Reconcile/Table.antt =====
-- The statuses of the gateway against the statuses of a payment: the table, and what follows.
use billing_core.Shared.{◌≡◌, ◌≢◌, Bool, true, false, not, Option, none, some, arith, or_else}
use billing_core.Shared.Int.{ℤ, pos, is_negative}
use billing_core.Shared.Texts.{Text, lit, text_eq, text_eq_ne, upper, or_empty}
use billing_core.Shared.Actions.{Result, ok, err}
use billing_core.Domain.Enums.{PaymentStatus, payment_status_eq}
use billing_core.Domain.Calendar.{Datetime}
use billing_core.Domain.Payment.{Payment}
use billing_core.UseCases.Reconcile.{apply_gateway_payment_status}

-- The statuses that the function acts on, and how the gateway spells them in capitals.
pub data Signal : Type 0 where
  confirmed received overdue refunded chargeback deleted : Signal

unfoldable pub word : Signal → Text
unfolding lit
word Signal.confirmed = lit "CONFIRMED"
word Signal.received = lit "RECEIVED"
word Signal.overdue = lit "OVERDUE"
word Signal.refunded = lit "REFUNDED"
word Signal.chargeback = lit "CHARGEBACK_REQUESTED"
word Signal.deleted = lit "DELETED"

-- The status that a payment gets; `none` where the signal is refused.
reversed : PaymentStatus → PaymentStatus
reversed PaymentStatus.paid = PaymentStatus.refunded
reversed PaymentStatus.confirmed = PaymentStatus.refunded
reversed s = s

unfoldable pub table : Signal → PaymentStatus → Option PaymentStatus
unfolding reversed
table Signal.confirmed PaymentStatus.pending = some PaymentStatus.confirmed
table Signal.confirmed PaymentStatus.overdue = some PaymentStatus.confirmed
table Signal.confirmed PaymentStatus.confirmed = some PaymentStatus.confirmed
table Signal.confirmed PaymentStatus.paid = some PaymentStatus.paid
table Signal.confirmed _ = none
table Signal.received PaymentStatus.pending = some PaymentStatus.paid
table Signal.received PaymentStatus.overdue = some PaymentStatus.paid
table Signal.received PaymentStatus.confirmed = some PaymentStatus.paid
table Signal.received PaymentStatus.paid = some PaymentStatus.paid
table Signal.received _ = none
table Signal.overdue PaymentStatus.pending = some PaymentStatus.overdue
table Signal.overdue PaymentStatus.confirmed = some PaymentStatus.overdue
table Signal.overdue PaymentStatus.overdue = some PaymentStatus.overdue
table Signal.overdue PaymentStatus.expired = some PaymentStatus.overdue
table Signal.overdue _ = none
table Signal.refunded s = some (reversed s)
table Signal.chargeback s = some (reversed s)
table Signal.deleted PaymentStatus.pending = some PaymentStatus.canceled
table Signal.deleted PaymentStatus.overdue = some PaymentStatus.canceled
table Signal.deleted PaymentStatus.confirmed = some PaymentStatus.canceled
table Signal.deleted s = some s

abbrev pub is_ok : Result Bool → Bool
is_ok (ok b) = true
is_ok (err e) = false

-- A run that began at `p`, against the entry of the table.
abbrev pub Agrees : Payment → Option PaymentStatus → Result Bool × Payment → Type 0
Agrees p none (r, q) = (is_ok r ≡ false) × (q ≡ p)
Agrees p (some s) (r, q) =
    (r ≡ ok (not (payment_status_eq p.payment_status s))) × (q.payment_status ≡ s)

-- For each of the six signals, spelled in any case, each payment and a net value that is not
-- negative, apply_gateway_payment_status does what the table of statuses says: it moves the
-- payment and reports whether the status changed, or it raises and leaves the payment alone.
pub apply-Agrees :
    (g : Signal) (status : Option Text) (date : Option Datetime) (net : Option ℤ)
    (now later : Datetime) (p : Payment)
    → upper (or_empty status) ≡ word g
    → is_negative (or_else net (pos 0)) ≡ false
    → Agrees p (table g p.payment_status) (apply_gateway_payment_status status date net now later p)
unfolding apply_gateway_payment_status word text_eq table
apply-Agrees Signal.confirmed status date net now later p h n = rw h (ground arith)
apply-Agrees Signal.received status date net now later p h n = rw h (ground arith)
apply-Agrees Signal.overdue status date net now later p h n = rw h (ground arith)
apply-Agrees Signal.refunded status date net now later p h n = rw h (ground arith)
apply-Agrees Signal.chargeback status date net now later p h n = rw h (ground arith)
apply-Agrees Signal.deleted status date net now later p h n = rw h (ground arith)

-- A status that is none of the six signals leaves the payment alone and reports no change.
apply_other :
    (status : Option Text) (date : Option Datetime) (net : Option ℤ) (now later : Datetime)
    (p : Payment)
    → ((g : Signal) → upper (or_empty status) ≢ word g)
    → apply_gateway_payment_status status date net now later p ≡ (ok false, p)
unfolding apply_gateway_payment_status word
apply_other status date net now later p h =
    let x = upper (or_empty status) in
    ground (
      arith,
      text_eq_ne x (lit "CONFIRMED") (h Signal.confirmed),
      text_eq_ne x (lit "RECEIVED") (h Signal.received),
      text_eq_ne x (lit "OVERDUE") (h Signal.overdue),
      text_eq_ne x (lit "REFUNDED") (h Signal.refunded),
      text_eq_ne x (lit "CHARGEBACK_REQUESTED") (h Signal.chargeback),
      text_eq_ne x (lit "DELETED") (h Signal.deleted),
    )

-- After a call that did not raise, a second call with the same status reports no change and
-- leaves the status of the payment.
pub apply_again :
    (status : Option Text) (date date' : Option Datetime) (net net' : Option ℤ)
    (now later now' later' : Datetime) (p : Payment)
    → let q = (apply_gateway_payment_status status date net now later p).1 in
      let again = apply_gateway_payment_status status date' net' now' later' q in
      is_ok (apply_gateway_payment_status status date net now later p).0 ≡ true
      → (again.0 ≡ ok false) × (again.1.payment_status ≡ q.payment_status)
unfolding apply_gateway_payment_status
apply_again status date date' net net' now later now' later' p h = ground arith
