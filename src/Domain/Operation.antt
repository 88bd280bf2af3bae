-- ===== src/Domain/Operation.antt =====
-- app/domain/entities/gateway_operation.py: the record of a call of a gateway.
use billing_core.Shared.{ℕ, Option, none, some, if◌then◌else◌}
use billing_core.Shared.Texts.{Text, lit, strip, is_empty, or_empty, stripped_or_none}
use billing_core.Shared.Json.{Json}
use billing_core.Shared.Actions.{domain, Result, ok, err, Action}
use billing_core.Domain.Enums.{GatewayOperationStatus, GatewayProvider, System}
use billing_core.Domain.Calendar.{Datetime}

pub record GatewayOperation : Type 0 where
  pub id : Option ℕ
  pub operation_name : Text
  pub dedupe_key : Text
  pub provider : GatewayProvider
  pub system : System
  pub request_payload : Json
  pub status : GatewayOperationStatus
  pub gateway_reference : Option Text
  pub error_message : Option Text
  pub created_at : Datetime
  pub updated_at : Datetime

-- `__init__`, of the fields as they are given.
unfoldable pub construct : GatewayOperation → Result GatewayOperation
construct o =
    let name = strip o.operation_name in
    let key = strip o.dedupe_key in
    if is_empty name
    then err (domain "GatewayOperation precisa ter operation_name.")
    else if is_empty key
    then err (domain "GatewayOperation precisa ter dedupe_key.")
    else ok (record o { operation_name = name; dedupe_key = key })

-- `GatewayOperation(…)` with the defaults of the arguments that no use case gives.
unfoldable pub new_operation :
    Text → Text → GatewayProvider → System → Json → Datetime → Result GatewayOperation
unfolding construct
new_operation operation_name dedupe_key provider system request_payload now = construct (record {
  id = none;
  operation_name = operation_name;
  dedupe_key = dedupe_key;
  provider = provider;
  system = system;
  request_payload = request_payload;
  status = GatewayOperationStatus.pending;
  gateway_reference = none;
  error_message = none;
  created_at = now;
  updated_at = now;
})

-- `(error_message or "").strip() or default`
message_or : Text → Text → Text
message_or message default = let m = strip message in if is_empty m then default else m

unfoldable pub mark_completed : Option Text → Datetime → Action GatewayOperation Unit
mark_completed gateway_reference now o =
    let reference = strip (or_empty gateway_reference) in
    if is_empty reference
    then (err (domain "GatewayOperation precisa de gateway_reference ao concluir."), o)
    else (
      ok tt,
      record o {
        status = GatewayOperationStatus.completed;
        gateway_reference = some reference;
        error_message = none;
        updated_at = now;
      },
    )

unfoldable pub mark_failed : Text → Datetime → GatewayOperation → GatewayOperation
unfolding message_or
mark_failed error_message now o = record o {
  status = GatewayOperationStatus.failed;
  error_message = some (message_or error_message (lit "Falha nao detalhada."));
  updated_at = now;
}

unfoldable pub mark_requires_reconciliation :
    Option Text → Text → Datetime → GatewayOperation → GatewayOperation
unfolding message_or
mark_requires_reconciliation gateway_reference error_message now o = record o {
  status = GatewayOperationStatus.requires_reconciliation;
  gateway_reference = stripped_or_none gateway_reference;
  error_message = some (message_or error_message (lit "Operacao marcada para reconciliacao."));
  updated_at = now;
}
