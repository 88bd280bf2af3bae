-- ===== src/Domain/Customer.antt =====
-- app/domain/entities/customer.py: the customer and its methods. The e-mail address is the text that
-- app/domain/value_objects/email.py has accepted.
pub mod Binding
use billing_core.Shared.{ℕ, Bool, not, ◌&&◌, Option, none, some, if◌then◌else◌, is_some}
use billing_core.Shared.Texts.{Text, strip, is_empty, or_empty, is_truthy}
use billing_core.Shared.Actions.{domain, Result, ok, err, Action}
use billing_core.Domain.Enums.{GatewayProvider, System}
use billing_core.Domain.Documents.{Cpf, Cnpj}

pub record Customer : Type 0 where
  pub id : Option ℕ
  pub nome : Text
  pub email : Text
  pub cpf : Option Cpf
  pub cnpj : Option Cnpj
  pub provider_customer_id : Option Text
  pub system_customer_id : Text
  pub gateway_provider : GatewayProvider
  pub system : System

-- `__init__`: the last two arguments are the name and the identifier as they are given.
unfoldable pub construct : Customer → Option Text → Option Text → Result Customer
construct c name_given system_customer_id =
    let name = strip (or_empty name_given) in
    let reference = strip (or_empty system_customer_id) in
    if is_empty name
    then err (domain "Customer precisa ter nome.")
    else if is_empty reference
    then err (domain "Customer precisa ter identificador do sistema.")
    else if not (is_some c.cpf) && not (is_some c.cnpj)
    then err (domain "Customer precisa ter CPF ou CNPJ.")
    else if is_some c.cpf && is_some c.cnpj
    then err (domain "Customer deve ter apenas um documento principal.")
    else ok (record c { nome = name; system_customer_id = reference })

unfoldable pub bind_provider_customer : Option Text → Action Customer Unit
bind_provider_customer provider_customer_id c =
    let reference = strip (or_empty provider_customer_id) in
    if is_empty reference
    then (err (domain "Customer precisa ter identificador do gateway."), c)
    else (ok tt, record c { provider_customer_id = some reference })

unfoldable pub has_provider_binding : Customer → Bool
has_provider_binding c = is_truthy c.provider_customer_id

unfoldable pub return_cpf_cnpj : Customer → Result Text
return_cpf_cnpj c = elim c.cpf [
  | some cpf ↦ ok cpf.value
  | none ↦ elim c.cnpj [
    | some cnpj ↦ ok cnpj.value
    | none ↦ err (domain "Customer sem documento principal.")
  ]
]
