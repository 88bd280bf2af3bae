-- ===== src/Domain/Customer/Binding.antt =====
-- The document of a customer, and its binding to a gateway: app/domain/entities/customer.py.
use billing_core.Shared.{◌≡◌, refl, ◌∙◌, true, false, Option, none, some, arith}
use billing_core.Shared.Texts.{Text, strip, is_empty, or_empty}
use billing_core.Shared.Actions.{ok}
use billing_core.Domain.Documents.{Cpf, Cnpj}
use billing_core.Domain.Customer.{
  Customer, construct, bind_provider_customer, has_provider_binding, return_cpf_cnpj,
}

-- The document of a customer: a CPF or a CNPJ, and not both.
pub data HasDocument (c : Customer) (value : Text) : Type 0 where
  by_cpf : (d : Cpf) → c.cpf ≡ some d → c.cnpj ≡ none → d.value ≡ value → HasDocument c value
  by_cnpj : (d : Cnpj) → c.cnpj ≡ some d → c.cpf ≡ none → d.value ≡ value → HasDocument c value

-- A customer that the constructor accepts has one document, a CPF or a CNPJ, and return_cpf_cnpj
-- gives it without an error.
pub construct-HasDocument :
    (c : Customer) (name system_customer_id : Option Text) {made : Customer}
    → construct c name system_customer_id ≡ ok made
    → (value : Text) × HasDocument made value × (return_cpf_cnpj made ≡ ok value)
unfolding construct return_cpf_cnpj
construct-HasDocument c name system_customer_id {made} h =
    go c.cpf c.cnpj refl refl (ground arith, ground arith)
  where
    go :
        (p : Option Cpf) (j : Option Cnpj)
        → c.cpf ≡ p
        → c.cnpj ≡ j
        → (made.cpf ≡ c.cpf) × (made.cnpj ≡ c.cnpj)
        → (value : Text) × HasDocument made value × (return_cpf_cnpj made ≡ ok value)
    go (some d) none p j s = (d.value, by_cpf d (s.0 ∙ p) (s.1 ∙ j) refl, rw (s.0 ∙ p) refl)
    go none (some d) p j s =
        (d.value, by_cnpj d (s.1 ∙ j) (s.0 ∙ p) refl, rw (s.0 ∙ p) (rw (s.1 ∙ j) refl))
    go none none p j s = ground arith
    go (some d) (some e) p j s = ground arith

-- A binding of a customer to an identifier that is not blank is there afterwards, and the
-- document of the customer stays.
bind_provider_customer-binds :
    (provider_customer_id : Option Text) (c : Customer)
    → is_empty (strip (or_empty provider_customer_id)) ≡ false
    → (has_provider_binding (bind_provider_customer provider_customer_id c).1 ≡ true)
      × (return_cpf_cnpj (bind_provider_customer provider_customer_id c).1 ≡ return_cpf_cnpj c)
unfolding bind_provider_customer has_provider_binding return_cpf_cnpj
bind_provider_customer-binds provider_customer_id c h = ground arith
