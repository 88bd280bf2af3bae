-- ===== src/Gateways/MercadoPago/Checkouts/Followed.antt =====
-- The status of a checkout, which MercadoPago does not give: what the reconciliation of a checkout
-- makes of it.
use mathlib.Core.List.{Memᴰ}
use billing_core.Shared.{
  ℕ, ◌+◌, ◌<◌, ◌≡◌, refl, sym, ap, subst, ◌∙◌, Bool, true, false, ◌||◌, List, [], ◌∷◌, Option, none,
  some, arith, any, if◌then◌else◌,
}
use billing_core.Shared.Texts.{Text, lit, text_eq, upper}
use billing_core.Shared.Actions.{Result, ok, err}
use billing_core.Domain.Calendar.{Datetime, instant}
use billing_core.Domain.Enums.{PaymentStatus}
use billing_core.Workers.Reconciliation.Payload.{and_then}
use billing_core.Workers.Reconciliation.Checkouts.{checkout_payment_status}
use billing_core.Gateways.MercadoPago.{
  Api, Moment, RemotePayment, Preference, normalized, parse_datetime,
}
use billing_core.Gateways.MercadoPago.Checkouts.{
  has_status, unsettled, is_current, resolve_checkout_status,
}

module _ {A : Type 0} (p : A → Bool) where
  any-Mem : (l : List A) → any p l ≡ true → (a : A) × Memᴰ a l × (p a ≡ true)
  unfolding any
  any-Mem [] h = ground arith
  any-Mem (a ∷ l) h = go (p a) refl λ k. any-Mem l k
    where
      go :
          (b : Bool)
          → p a ≡ b
          → (any p l ≡ true → (x : A) × Memᴰ x l × (p x ≡ true))
          → (x : A) × Memᴰ x (a ∷ l) × (p x ≡ true)
      go true e f = (a, Memᴰ.head refl, e)
      go false e f = let (x, m, q) = f (ground (arith, h)) in (x, Memᴰ.tail m, q)

  any-absent : (l : List A) → any p l ≡ false → {a : A} → Memᴰ a l → p a ≡ false
  unfolding any
  any-absent [] h {a} m = elim m [ ]
  any-absent (b ∷ l) h {a} (Memᴰ.head e) = ap p e ∙ ground (arith, h)
  any-absent (b ∷ l) h {a} (Memᴰ.tail m) = any-absent l (ground (arith, h)) m

module _ (api : Api) (preference : Preference) (payments : List RemotePayment) (now : Datetime)
    (grace : ℕ) where
  -- The preference expires, and its time and the grace are over.
  pub record IsOver : Type 0 where
    pub expires : preference.expires ≡ true
    pub expiration : Moment
    pub read : parse_datetime api preference.expiration_date_to ≡ ok (some expiration)
    pub past : instant expiration.at + grace < instant now

  abbrev pub is_approved : RemotePayment → Bool
  is_approved p = text_eq (normalized p.status) (lit "approved")

  abbrev pub is_unsettled : RemotePayment → Bool
  is_unsettled p = any (text_eq (normalized p.status)) unsettled

  -- The status of the payment of a checkout, by what the gateway has of it.
  pub data Follows : Option PaymentStatus → Type 0 where
    is_paid :
        (p : RemotePayment)
        → Memᴰ p payments
        → is_approved p ≡ true
        → Follows (some PaymentStatus.paid)
    is_pending :
        ((p : RemotePayment) → Memᴰ p payments → is_approved p ≡ false)
        → (IsOver → (p : RemotePayment) × Memᴰ p payments × (is_unsettled p ≡ true))
        → Follows (some PaymentStatus.pending)
    is_expired :
        IsOver
        → ((p : RemotePayment)
            → Memᴰ p payments
            → (is_approved p ≡ false) × (is_unsettled p ≡ false))
        → Follows (some PaymentStatus.expired)

  approved_only :
      (p : RemotePayment)
      → any (text_eq (normalized p.status)) (lit "approved" ∷ []) ≡ is_approved p
  unfolding any
  approved_only p = ground arith

  not_approved :
      has_status (lit "approved" ∷ []) payments ≡ false
      → (p : RemotePayment) → Memᴰ p payments
      → is_approved p ≡ false
  unfolding has_status
  not_approved h p m = sym (approved_only p) ∙ any-absent _ payments h m

  module _ {expiration : Option Moment}
      (e : parse_datetime api preference.expiration_date_to ≡ ok expiration) where
    not_over : is_current preference expiration now grace ≡ ok true → IsOver → ⊥
    unfolding is_current
    not_over k o = go expiration (sym e ∙ o.read) k
      where
        go :
            (x : Option Moment)
            → ◌≡◌ {A = Result (Option Moment)} (ok x) (ok (some o.expiration))
            → is_current preference x now grace ≡ ok true
            → ⊥
        go none r h = ground (arith, r)
        go (some t) r h = ground (arith, r, o.expires, o.past)

    over : is_current preference expiration now grace ≡ ok false → IsOver
    unfolding is_current
    over k = go expiration e k
      where
        go :
            (x : Option Moment)
            → parse_datetime api preference.expiration_date_to ≡ ok x
            → is_current preference x now grace ≡ ok false
            → IsOver
        go none r h = ground arith
        go (some t) r h = record {
          expires = ground (arith, h);
          expiration = t;
          read = r;
          past = ground (arith, h);
        }

    unpaid-Follows :
        has_status (lit "approved" ∷ []) payments ≡ false
        → (b c : Bool) → is_current preference expiration now grace ≡ ok b
        → has_status unsettled payments ≡ c
        → Follows (checkout_payment_status (upper (if b || c then lit "ACTIVE" else lit "EXPIRED")))
    unfolding checkout_payment_status upper lit text_eq has_status
    unpaid-Follows h true c k u = is_pending (not_approved h) λ o. elim (not_over k o) [ ]
    unpaid-Follows h false true k u = is_pending (not_approved h) λ o. any-Mem _ payments u
    unpaid-Follows h false false k u =
        is_expired (over k) λ p m. (not_approved h p m, any-absent _ payments u m)

  paid-Follows :
      has_status (lit "approved" ∷ []) payments ≡ true
      → Follows (checkout_payment_status (upper (lit "PAID")))
  unfolding checkout_payment_status upper lit text_eq has_status
  paid-Follows h = let (p, m, q) = any-Mem _ payments h in is_paid p m (sym (approved_only p) ∙ q)

  answered :
      {s status : Text}
      → ◌≡◌ {A = Result Text} (ok s) (ok status)
      → Follows (checkout_payment_status (upper s))
      → Follows (checkout_payment_status (upper status))
  answered q f = subst (λ t. Follows (checkout_payment_status (upper t))) (ground (arith, q)) f

  compared :
      {status : Text} {expiration : Option Moment}
      → parse_datetime api preference.expiration_date_to ≡ ok expiration
      → has_status (lit "approved" ∷ []) payments ≡ false
      → (r : Result Bool) → is_current preference expiration now grace ≡ r
      → and_then r (λ current.
        ok (if current || has_status unsettled payments then lit "ACTIVE" else lit "EXPIRED"))
        ≡ ok status
      → Follows (checkout_payment_status (upper status))
  compared e h (err x) k q = ground arith
  compared e h (ok b) k q = answered q (unpaid-Follows e h b _ k refl)

  -- The status that resolve_checkout_status gives a checkout of MercadoPago is one that the
  -- reconciliation of a checkout knows, and becomes paid only if a payment of the checkout was
  -- approved; expired only if the checkout and its grace are over and no payment was approved or
  -- is under way; and pending only if none was approved, and one is under way if the checkout is
  -- over.
  pub resolve_checkout_status-Follows :
      {status : Text}
      → resolve_checkout_status api preference payments now grace ≡ ok status
      → Follows (checkout_payment_status (upper status))
  unfolding resolve_checkout_status
  resolve_checkout_status-Follows {status} =
      go (has_status (lit "approved" ∷ []) payments) refl
        (parse_datetime api preference.expiration_date_to) refl
    where
      go :
          (b : Bool)
          → has_status (lit "approved" ∷ []) payments ≡ b
          → (r : Result (Option Moment)) → parse_datetime api preference.expiration_date_to ≡ r
          → (if b
              then ok (lit "PAID")
              else and_then r λ expiration.
                and_then (is_current preference expiration now grace) λ current. ok (
                  if current || has_status unsettled payments then lit "ACTIVE" else lit "EXPIRED"))
            ≡ ok status
          → Follows (checkout_payment_status (upper status))
      go true h r e q = answered q (paid-Follows h)
      go false h (err x) e q = ground arith
      go false h (ok expiration) e q =
          compared e h (is_current preference expiration now grace) refl q
