-- ===== src/UseCases/Checkout/Examples.antt =====
-- Checkouts on a small database.
use billing_core.Shared.{◌≡◌, refl, true, false, [], ◌∷◌, none, some, ◌⊎◌, select, any, ℕ}
use billing_core.Shared.Int.{pos}
use billing_core.Shared.Texts.{Text, lit, strip, text_eq}
use billing_core.Shared.Json.{Json}
use billing_core.Shared.Actions.{Result, ok, lift, ◌>>=◌}
use billing_core.Domain.Examples.{day, open_payment}
use billing_core.Domain.Enums.{System, system_value, GatewayProvider, GatewayOperationStatus}
use billing_core.Domain.Payment
use billing_core.Domain.Payment.{Payment}
use billing_core.Domain.Operation.{GatewayOperation}
use billing_core.Store.Session.{Db, Session, opened, query, statement}
use billing_core.Store.Tables.{one_or_none}
use billing_core.Store.Tables.Uniqueness.{is_table}
use billing_core.Store.Repositories.{operations, payment_by_system_ref}
use billing_core.UseCases.OperationLog.{Blocked, is_open}
use billing_core.UseCases.Checkout.{
  CheckoutRequest, CheckoutResponse, CheckoutEnv, Gateway, is_renewal, operation_dedupe_key,
  call_of,
}
use billing_core.UseCases.Checkout.Answers.{Answers}
use billing_core.UseCases.Checkout.Execute.{execute}
use billing_core.UseCases.Checkout.Log.{may_have_made}
use billing_core.UseCases.Checkout.Outcome.{IsUnasked}
use billing_core.UseCases.Checkout.Repeat.{renewed_of, execute-Logged, execute-refused}

abbrev pub env : CheckoutEnv
env = record { clock = λ n. day 3 1; dump = λ r k. Json.null; message = λ e. lit "error" }

abbrev pub request : CheckoutRequest
request = record {
  system = System.neectify_food;
  system_payment_id = lit "order-9";
  description = lit "order";
  value = pos 500;
  minutes_to_expire = 30;
  items = [];
  success_url = lit "/ok";
  cancel_url = lit "/no";
  expired_url = lit "/late";
  webhook_link = lit "/hook";
}

abbrev pub gateway : Gateway
gateway p c = ok (record { checkout_id = lit "chk_1"; checkout_url = lit "/pay" })

abbrev pub empty : Db
empty = record {
  payments = [];
  subscriptions = [];
  events = [];
  operations = [];
  deliveries = [];
  next_id = 1;
}

-- The connection is lost when the payment is saved, after the gateway has made the checkout.
abbrev session : Session
session = record {
  db = empty;
  committed = empty;
  faults = false ∷ false ∷ false ∷ false ∷ true ∷ [];
}

abbrev key : Text
key = operation_dedupe_key request none

key_trimmed : strip key ≡ key
unfolding operation_dedupe_key lit strip system_value
key_trimmed = refl

no_payment : (payment_by_system_ref request.system_payment_id request.system session).0 ≡ ok none
unfolding payment_by_system_ref query statement select one_or_none lift ◌>>=◌
no_payment = refl

no_operations : is_table operations.row 1 [] ≡ true
unfolding is_table
no_operations = refl

made : may_have_made (gateway GatewayProvider.asaas (call_of request none)) ≡ true
unfolding may_have_made lit
made = refl

execute-Logged_example :
    IsUnasked (λ g. execute env GatewayProvider.asaas request g session) gateway
    ⊎ ((n : ℕ) × Blocked key n
          (execute env GatewayProvider.asaas request gateway session).1.committed.operations)
unfolding renewed_of select
execute-Logged_example =
    execute-Logged env GatewayProvider.asaas request gateway session none no_payment key_trimmed
      no_operations refl made

-- The operation of the request, as it was left.
abbrev pub operation : GatewayOperation
operation = record {
  id = some 1;
  operation_name = lit "create_checkout";
  dedupe_key = key;
  provider = GatewayProvider.asaas;
  system = System.neectify_food;
  request_payload = Json.null;
  status = GatewayOperationStatus.requires_reconciliation;
  gateway_reference = some (lit "chk_1");
  error_message = some (lit "error");
  created_at = day 3 1;
  updated_at = day 3 1;
}

abbrev pub left : Db
left = record empty { operations = operation ∷ []; next_id = 2 }

in_the_way : Blocked key 1 left.operations
unfolding is_table text_eq lit select any is_open operation_dedupe_key system_value strip
in_the_way = record {
  row = operation;
  table = 2;
  only = refl;
  keyed = refl;
  named = refl;
  has_name = refl;
  has_dedupe = refl;
  consistent = refl;
  blocks = refl;
}

-- The payment of the request, whose checkout can still be paid.
abbrev waiting : Payment
waiting = record open_payment {
  system_payment_id = request.system_payment_id;
  checkout_link = some (lit "/pay");
}

abbrev with_payment : Db
with_payment = record left { payments = waiting ∷ []; next_id = 5 }

payment_waits :
    (payment_by_system_ref request.system_payment_id request.system (opened with_payment)).0
    ≡ ok (some waiting)
unfolding payment_by_system_ref query statement select one_or_none lift ◌>>=◌ Payment.construct
    strip text_eq lit
payment_waits = refl

execute-refused_example :
    (r : Result CheckoutResponse) × Answers (some waiting) r
    × ((g : Gateway)
        → execute env GatewayProvider.asaas request g (opened with_payment)
          ≡ (r, opened with_payment))
unfolding renewed_of is_renewal
execute-refused_example =
    execute-refused env GatewayProvider.asaas request (some waiting) 1 with_payment payment_waits
      in_the_way
