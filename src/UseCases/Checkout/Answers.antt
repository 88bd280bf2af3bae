-- ===== src/UseCases/Checkout/Answers.antt =====
-- What an answer of `CreateCheckout.execute` says that does not come from the gateway.
use billing_core.Shared.{ℕ, ◌≡◌, ◌≢◌, refl, true, false, Option, none, some, arith}
use billing_core.Shared.Texts.{Text}
use billing_core.Shared.Actions.{Error, Result, ok, err}
use billing_core.Domain.Enums.{PaymentStatus}
use billing_core.Domain.Payment.{Payment}
use billing_core.UseCases.Checkout.{CheckoutResponse, response_of, is_renewal}

-- The payment is there, its checkout can still be paid or has been, and the response is about it.
pub record IsAbout (existing : Option Payment) (r : CheckoutResponse) : Type 0 where
  pub payment : Payment
  pub there : existing ≡ some payment
  pub named : payment.id ≡ some r.payment_id
  pub linked : payment.checkout_link ≡ some r.checkout_url
  pub status : r.payment_status ≡ payment.payment_status
  pub not_expired : payment.payment_status ≢ PaymentStatus.expired
  pub not_canceled : payment.payment_status ≢ PaymentStatus.canceled

-- The answer is about the payment; it is an error only where no response is.
unfoldable pub Answers : Option Payment → Result CheckoutResponse → Type 0
Answers existing (ok r) = IsAbout existing r
Answers existing (err e) = (r : CheckoutResponse) → IsAbout existing r → ⊥

pub absent-Answers : (e : Error) → Answers none (err e)
unfolding Answers
absent-Answers e r a = ground (arith, a.there)

pub renewed-Answers : (p : Payment) (e : Error) → is_renewal p ≡ true → Answers (some p) (err e)
unfolding Answers is_renewal
renewed-Answers p e h r a = ground (arith, a.there, a.not_expired, a.not_canceled)

-- The answer about a payment whose checkout is not to be renewed.
pub response_of-Answers :
    (p : Payment)
    → is_renewal p ≡ false
    → Answers (some p) (response_of p.id p.checkout_link p.payment_status)
unfolding Answers is_renewal response_of
response_of-Answers p h = go p.id refl p.checkout_link refl
  where
    go :
        (i : Option ℕ)
        → p.id ≡ i
        → (l : Option Text) → p.checkout_link ≡ l
        → Answers (some p) (response_of i l p.payment_status)
    go none e none f = λ r a. ground (arith, e, a.there, a.named)
    go none e (some u) f = λ r a. ground (arith, e, a.there, a.named)
    go (some n) e none f = λ r a. ground (arith, f, a.there, a.linked)
    go (some n) e (some u) f = record {
      payment = p;
      there = refl;
      named = e;
      linked = f;
      status = refl;
      not_expired = λ k. ground (arith, h, k);
      not_canceled = λ k. ground (arith, h, k);
    }
