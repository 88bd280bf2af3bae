-- ===== src/Store/Laws.antt =====
-- The unique constraints of app/infra/db/models, table by table.
use billing_core.Shared.{◌≡◌, refl, ◌∙◌, sym, true, ◌&&◌, Option, none, some, arith}
use billing_core.Shared.Texts.{Text, text_eq, text_eq_iff}
use billing_core.Domain.Enums.{System, system_eq}
use billing_core.Store.Tables.Uniqueness.{Lawful}
use billing_core.Store.Tables.Lookups.{IsUnique}
use billing_core.Store.Repositories.{
  payments, subscriptions, events, operations, deliveries, column_eq,
}

text_eq_sym : (s t : Text) → text_eq s t ≡ text_eq t s
text_eq_sym s t = ground (arith, text_eq_iff s t, text_eq_iff t s)

system_eq_sym : (a b : System) → system_eq a b ≡ system_eq b a
system_eq_sym a b = ground arith

pub events-Lawful : Lawful events.row
events-Lawful = record {
  clashes_sym = λ a b. text_eq_sym a.event_id b.event_id;
  key-with_key = λ n a. refl;
  clashes-with_key = λ n a b. refl;
  key-written = λ n old a h k. k;
}

pub operations-Lawful : Lawful operations.row
operations-Lawful = record {
  clashes_sym = λ a b. text_eq_sym a.dedupe_key b.dedupe_key;
  key-with_key = λ n a. refl;
  clashes-with_key = λ n a b. refl;
  key-written = λ n old a h k. k;
}

pub deliveries-Lawful : Lawful deliveries.row
deliveries-Lawful = record {
  clashes_sym = λ a b. text_eq_sym a.dedupe_key b.dedupe_key;
  key-with_key = λ n a. refl;
  clashes-with_key = λ n a b. refl;
  key-written = λ n old a h k. k;
}

pub payments-Lawful : Lawful payments.row
payments-Lawful = record {
  clashes_sym = λ a b. ground (
    arith,
    text_eq_sym a.provider_payment_id b.provider_payment_id,
    text_eq_sym a.system_payment_id b.system_payment_id,
    system_eq_sym a.from_system b.from_system,
  );
  key-with_key = λ n a. refl;
  clashes-with_key = λ n a b. refl;
  key-written = λ n old a h k. h;
}

pub subscriptions-Lawful : Lawful subscriptions.row
subscriptions-Lawful = record {
  clashes_sym = λ a b. ground (
    arith,
    text_eq_sym a.gateway_subscription_id b.gateway_subscription_id,
    text_eq_sym a.system_subscription_id b.system_subscription_id,
    system_eq_sym a.from_system b.from_system,
  );
  key-with_key = λ n a. refl;
  clashes-with_key = λ n a b. refl;
  key-written = λ n old a h k. h;
}

-- Two texts that are equal to a third.
text_eq_both : (s t k : Text) → text_eq s k ≡ true → text_eq t k ≡ true → text_eq s t ≡ true
text_eq_both s t k h h' = (text_eq_iff s t).1 ((text_eq_iff s k).0 h ∙ sym ((text_eq_iff t k).0 h'))

pub event_id-IsUnique : (k : Text) → IsUnique events.row (λ e. text_eq e.event_id k)
event_id-IsUnique k = record { at = λ a b. text_eq_both a.event_id b.event_id k }

pub operation_key-IsUnique : (k : Text) → IsUnique operations.row (λ o. text_eq o.dedupe_key k)
operation_key-IsUnique k = record { at = λ a b. text_eq_both a.dedupe_key b.dedupe_key k }

pub delivery_key-IsUnique : (k : Text) → IsUnique deliveries.row (λ d. text_eq d.dedupe_key k)
delivery_key-IsUnique k = record { at = λ a b. text_eq_both a.dedupe_key b.dedupe_key k }

pub provider_id-IsUnique :
    (i : Option Text) → IsUnique payments.row (λ p. column_eq p.provider_payment_id i)
provider_id-IsUnique none = record { at = λ a b h k. ground (arith, h) }
provider_id-IsUnique (some t) = record {
  at = λ a b h k. ground (arith, text_eq_both a.provider_payment_id b.provider_payment_id t h k);
}

pub gateway_id-IsUnique :
    (i : Option Text) → IsUnique subscriptions.row (λ s. column_eq s.gateway_subscription_id i)
gateway_id-IsUnique none = record { at = λ a b h k. ground (arith, h) }
gateway_id-IsUnique (some t) = record {
  at = λ a b h k.
      ground (arith, text_eq_both a.gateway_subscription_id b.gateway_subscription_id t h k);
}

system_eq_both :
    (a b c : System) → system_eq a c ≡ true → system_eq b c ≡ true → system_eq a b ≡ true
system_eq_both a b c h k = ground arith

pub payment_ref-IsUnique :
    (ref : Text) (system : System)
    → IsUnique payments.row (λ p. text_eq p.system_payment_id ref && system_eq p.from_system system)
payment_ref-IsUnique ref system = record {
  at = λ a b h k. ground (
    arith,
    h,
    k,
    text_eq_both a.system_payment_id b.system_payment_id ref,
    system_eq_both a.from_system b.from_system system,
  );
}

pub subscription_ref-IsUnique :
    (ref : Text) (system : System)
    → IsUnique subscriptions.row
        (λ s. text_eq s.system_subscription_id ref && system_eq s.from_system system)
subscription_ref-IsUnique ref system = record {
  at = λ a b h k. ground (
    arith,
    h,
    k,
    text_eq_both a.system_subscription_id b.system_subscription_id ref,
    system_eq_both a.from_system b.from_system system,
  );
}
