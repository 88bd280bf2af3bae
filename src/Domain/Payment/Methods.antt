-- ===== src/Domain/Payment/Methods.antt =====
-- The methods of `Payment` in app/domain/entities/payment.py that change it. One that asks for the
-- time takes an instant for each of its calls of `datetime.now`.
use billing_core.Shared.{not, [], ◌∷◌, Option, none, some, if◌then◌else◌, or_else}
use billing_core.Shared.Int.{ℤ, is_negative}
use billing_core.Shared.Texts.{Text, strip, is_empty, or_empty}
use billing_core.Shared.Actions.{domain, ok, err, Action, raise_if, modify, ◌>>=◌, ◌>>◌}
use billing_core.Domain.Enums.{PaymentStatus, payment_status_eq, one_of}
use billing_core.Domain.Calendar.{Datetime}
use billing_core.Domain.Payment.{Payment}

unfoldable pub mark_as_canceled : Datetime → Action Payment Unit
unfolding ◌>>=◌ raise_if modify
mark_as_canceled now p =
    (do
      raise_if
          (not (
            one_of p.payment_status
              (PaymentStatus.pending ∷ PaymentStatus.overdue ∷ PaymentStatus.confirmed ∷ [])))
          (domain "Nao e possivel cancelar esse pagamento.")
      modify λ q. record q {
        payment_status = PaymentStatus.canceled;
        canceled_date = some now;
        updated_at = now;
      })
      p

-- `if net_value is not None: …`: the status and the date are set before this test.
set_net_value : Option ℤ → Action Payment Unit
set_net_value none p = (ok tt, p)
set_net_value (some v) p =
    if is_negative v
    then (err (domain "Pagamento nao pode ter valor liquido negativo."), p)
    else (ok tt, record p { net_value = some v })

settle : PaymentStatus → Option Datetime → Option ℤ → Datetime → Datetime → Action Payment Unit
unfolding ◌>>=◌ modify set_net_value
settle status payment_date net_value now later = do
  modify λ q. record q { payment_status = status; paid_date = some (or_else payment_date now) }
  set_net_value net_value
  modify λ q. record q { updated_at = later }

unfoldable pub mark_as_confirmed :
    Option Datetime → Option ℤ → Datetime → Datetime → Action Payment Unit
unfolding settle ◌>>=◌ raise_if
mark_as_confirmed payment_date net_value now later p =
    if one_of p.payment_status (PaymentStatus.confirmed ∷ PaymentStatus.paid ∷ [])
    then (ok tt, p)
    else (do
      raise_if (not (one_of p.payment_status (PaymentStatus.pending ∷ PaymentStatus.overdue ∷ [])))
          (domain "Nao e possivel confirmar esse pagamento.")
      settle PaymentStatus.confirmed payment_date net_value now later)
        p

unfoldable pub mark_as_overdue : Datetime → Action Payment Unit
unfolding ◌>>=◌ raise_if modify
mark_as_overdue now p =
    (do
      raise_if (payment_status_eq p.payment_status PaymentStatus.paid)
          (domain "Nao e possivel vencer um pagamento ja recebido.")
      raise_if
          (one_of p.payment_status
            (PaymentStatus.canceled ∷ PaymentStatus.refunded ∷ PaymentStatus.failed ∷ []))
          (domain "Nao e possivel vencer esse pagamento.")
      modify λ q. record q { payment_status = PaymentStatus.overdue; updated_at = now })
      p

unfoldable pub mark_as_expired : Datetime → Action Payment Unit
unfolding ◌>>=◌ raise_if modify
mark_as_expired now p =
    (do
      raise_if (not (one_of p.payment_status (PaymentStatus.pending ∷ PaymentStatus.overdue ∷ [])))
          (domain "Nao e possivel expirar esse pagamento.")
      modify λ q. record q { payment_status = PaymentStatus.expired; updated_at = now })
      p

unfoldable pub mark_as_paid : Option Datetime → Option ℤ → Datetime → Datetime → Action Payment Unit
unfolding settle ◌>>=◌ raise_if
mark_as_paid payment_date net_value now later p =
    if payment_status_eq p.payment_status PaymentStatus.paid
    then (ok tt, p)
    else (do
      raise_if
          (not (
            one_of p.payment_status
              (PaymentStatus.pending ∷ PaymentStatus.overdue ∷ PaymentStatus.confirmed ∷ [])))
          (domain "Nao e possivel confirmar esse pagamento.")
      settle PaymentStatus.paid payment_date net_value now later)
        p

unfoldable pub mark_as_refunded : Datetime → Action Payment Unit
unfolding ◌>>=◌ raise_if modify
mark_as_refunded now p =
    (do
      raise_if (not (one_of p.payment_status (PaymentStatus.paid ∷ PaymentStatus.confirmed ∷ [])))
          (domain "Nao e possivel estornar um pagamento nao pago.")
      modify λ q. record q {
        refunded_date = some now;
        payment_status = PaymentStatus.refunded;
        updated_at = now;
      })
      p

unfoldable pub mark_as_failed : Datetime → Action Payment Unit
unfolding ◌>>=◌ raise_if modify
mark_as_failed now p =
    (do
      raise_if (payment_status_eq p.payment_status PaymentStatus.paid)
          (domain "Nao e possivel falhar um pagamento ja confirmado.")
      modify λ q. record q {
        failed_date = some now;
        payment_status = PaymentStatus.failed;
        updated_at = now;
      })
      p

unfoldable pub renew_checkout : Option Text → Option Text → Text → Datetime → Action Payment Unit
unfolding ◌>>=◌ raise_if modify
renew_checkout provider_payment_id checkout_link external_reference now p =
    let provider_ref = strip (or_empty provider_payment_id) in
    (do
      raise_if (not (one_of p.payment_status (PaymentStatus.expired ∷ PaymentStatus.canceled ∷ [])))
          (domain "Checkout so pode ser renovado para pagamento expirado ou cancelado.")
      raise_if (is_empty provider_ref)
          (domain "Checkout renovado precisa ter identificador do gateway.")
      modify λ q. record q {
        provider_payment_id = provider_ref;
        checkout_link = checkout_link;
        external_reference = some (strip external_reference);
        payment_status = PaymentStatus.pending;
        updated_at = now;
      })
      p
