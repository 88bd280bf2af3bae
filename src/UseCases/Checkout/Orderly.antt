-- ===== src/UseCases/Checkout/Orderly.antt =====
-- The order of the tables and a checkout.
use billing_core.Shared.{Option, none, some}
use billing_core.Shared.Texts.{Text}
use billing_core.Shared.Actions.{Error, Result, ok, err}
use billing_core.Domain.Enums.{GatewayProvider}
use billing_core.Domain.Payment.{Payment}
use billing_core.Domain.Operation.{GatewayOperation}
use billing_core.Store.Integrity.{Orderly}
use billing_core.Store.Lookups.{lookup_rules}
use billing_core.UseCases.Checkout.{CheckoutEnv, CheckoutRequest, CheckoutInfo, Gateway}
use billing_core.UseCases.Checkout.Execute.{
  open_operation, record_checkout, give_up, recover, settle, open_checkout, proceed, execute,
}

Orderly-open_operation :
    (env : CheckoutEnv) (g : GatewayProvider) (r : CheckoutRequest) (p : Option Payment)
    (o : Option GatewayOperation)
    → Orderly (open_operation env g r p o)
unfolding open_operation
Orderly-open_operation env g r p none = search lookup_rules
Orderly-open_operation env g r p (some o) = search lookup_rules

Orderly-record_checkout :
    (env : CheckoutEnv) (g : GatewayProvider) (r : CheckoutRequest) (p : Option Payment)
    (o : GatewayOperation) (i : CheckoutInfo)
    → Orderly (record_checkout env g r p o i)
unfolding record_checkout
Orderly-record_checkout env g r p o i = search lookup_rules depth 8

Orderly-give_up :
    (env : CheckoutEnv) (g : GatewayProvider) (r : CheckoutRequest) (o : GatewayOperation)
    (e : Error)
    → Orderly (give_up env g r o e)
unfolding give_up
Orderly-give_up env g r o e = search lookup_rules

Orderly-recover :
    (env : CheckoutEnv) (g : GatewayProvider) (r : CheckoutRequest) (o : GatewayOperation)
    (i : Option Text) (e : Error)
    → Orderly (recover env g r o i e)
unfolding recover
Orderly-recover env g r o i e = search (lookup_rules, Orderly-give_up)

Orderly-settle :
    (env : CheckoutEnv) (g : GatewayProvider) (r : CheckoutRequest) (p : Option Payment)
    (o : GatewayOperation) (a : Result CheckoutInfo)
    → Orderly (settle env g r p o a)
unfolding settle
Orderly-settle env g r p o (ok i) = search (lookup_rules, Orderly-recover, Orderly-record_checkout)
Orderly-settle env g r p o (err e) = search (lookup_rules, Orderly-recover)

Orderly-open_checkout :
    (env : CheckoutEnv) (g : GatewayProvider) (r : CheckoutRequest) (gateway : Gateway)
    (p : Option Payment)
    → Orderly (open_checkout env g r gateway p)
unfolding open_checkout
Orderly-open_checkout env g r gateway p =
    search (lookup_rules, Orderly-open_operation, Orderly-settle)

Orderly-proceed :
    (env : CheckoutEnv) (g : GatewayProvider) (r : CheckoutRequest) (gateway : Gateway)
    (p : Option Payment)
    → Orderly (proceed env g r gateway p)
unfolding proceed
Orderly-proceed env g r gateway none = search (lookup_rules, Orderly-open_checkout)
Orderly-proceed env g r gateway (some p) = search (lookup_rules, Orderly-open_checkout)

pub Orderly-execute :
    (env : CheckoutEnv) (g : GatewayProvider) (r : CheckoutRequest) (gateway : Gateway)
    → Orderly (execute env g r gateway)
unfolding execute
Orderly-execute env g r gateway = search (lookup_rules, Orderly-proceed)
