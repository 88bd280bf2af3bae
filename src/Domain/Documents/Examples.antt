-- ===== src/Domain/Documents/Examples.antt =====
-- A document, and a customer with it.
use billing_core.Shared.{◌≡◌, refl, none, some}
use billing_core.Shared.Texts.{Text, lit, strip}
use billing_core.Shared.Actions.{ok}
use billing_core.Domain.Enums.{GatewayProvider, System}
use billing_core.Domain.Documents.{Cpf, normalize, is_valid_cpf, create_cpf, formatted_cpf}
use billing_core.Domain.Documents.RoundTrip.{create_cpf-formatted}
use billing_core.Domain.Customer
use billing_core.Domain.Customer.{return_cpf_cnpj}
use billing_core.Domain.Customer.Binding.{HasDocument, construct-HasDocument}

abbrev cpf : Cpf
cpf = record { value = lit "39053344705" }

cpf_accepted : create_cpf (lit "390.533.447-05") ≡ ok cpf
unfolding create_cpf normalize is_valid_cpf lit
cpf_accepted = refl

create_cpf-formatted_example : create_cpf (formatted_cpf cpf) ≡ ok cpf
create_cpf-formatted_example = create_cpf-formatted (lit "390.533.447-05") cpf_accepted

abbrev customer : Customer.Customer
customer = record {
  id = none;
  nome = lit "Ana";
  email = lit "ana@example.com";
  cpf = some cpf;
  cnpj = none;
  provider_customer_id = none;
  system_customer_id = lit "c-1";
  gateway_provider = GatewayProvider.asaas;
  system = System.neectify_food;
}

customer_accepted :
    Customer.construct customer (some (lit " Ana ")) (some (lit "c-1")) ≡ ok customer
unfolding Customer.construct strip lit
customer_accepted = refl

construct-HasDocument_example :
    (value : Text) × HasDocument customer value × (return_cpf_cnpj customer ≡ ok value)
construct-HasDocument_example =
    construct-HasDocument customer (some (lit " Ana ")) (some (lit "c-1")) customer_accepted
