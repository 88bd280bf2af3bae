-- ===== src/UseCases/Creation/Orderly.antt =====
-- The order of the tables and the creation of a subscription.
use billing_core.Shared.{Option, none, some}
use billing_core.Shared.Texts.{Text}
use billing_core.Shared.Actions.{Error, Result, ok, err}
use billing_core.Domain.Customer.{Customer}
use billing_core.Domain.Subscription.{Subscription}
use billing_core.Domain.Operation.{GatewayOperation}
use billing_core.Store.Integrity.{Orderly}
use billing_core.Store.Lookups.{lookup_rules}
use billing_core.UseCases.Creation.{CreationEnv, SubscriptionRequest}
use billing_core.UseCases.Creation.Execute.{
  build_existing_response, record_subscription, abandon, recover_creation, settle_creation,
  open_creation, create_new, execute,
}

Orderly-build_existing_response : (s : Subscription) → Orderly (build_existing_response s)
unfolding build_existing_response
Orderly-build_existing_response s = search lookup_rules

Orderly-record_subscription :
    (env : CreationEnv) (r : SubscriptionRequest) (c : Customer) (o : GatewayOperation) (i : Text)
    → Orderly (record_subscription env r c o i)
unfolding record_subscription
Orderly-record_subscription env r c o i = search lookup_rules depth 12

Orderly-abandon :
    (env : CreationEnv) (r : SubscriptionRequest) (c : Customer) (o : GatewayOperation) (e : Error)
    → Orderly (abandon env r c o e)
unfolding abandon
Orderly-abandon env r c o e = search lookup_rules

Orderly-recover_creation :
    (env : CreationEnv) (r : SubscriptionRequest) (c : Customer) (o : GatewayOperation)
    (i : Option Text) (e : Error)
    → Orderly (recover_creation env r c o i e)
unfolding recover_creation
Orderly-recover_creation env r c o i e = search (lookup_rules, Orderly-abandon)

Orderly-settle_creation :
    (env : CreationEnv) (r : SubscriptionRequest) (c : Customer) (o : GatewayOperation)
    (a : Result Text)
    → Orderly (settle_creation env r c o a)
unfolding settle_creation
Orderly-settle_creation env r c o (ok i) =
    search (lookup_rules, Orderly-recover_creation, Orderly-record_subscription)
Orderly-settle_creation env r c o (err e) = search (lookup_rules, Orderly-recover_creation)

Orderly-open_creation :
    (env : CreationEnv) (r : SubscriptionRequest) (c : Customer) (o : Option GatewayOperation)
    → Orderly (open_creation env r c o)
unfolding open_creation
Orderly-open_creation env r c none = search lookup_rules
Orderly-open_creation env r c (some o) = search lookup_rules

Orderly-create_new :
    (env : CreationEnv) (r : SubscriptionRequest) (c : Customer) → Orderly (create_new env r c)
unfolding create_new
Orderly-create_new env r c = search (lookup_rules, Orderly-open_creation, Orderly-settle_creation)

pub Orderly-execute :
    (env : CreationEnv) (r : SubscriptionRequest) (c : Customer) → Orderly (execute env r c)
unfolding execute
Orderly-execute env r c = search (lookup_rules, Orderly-create_new, Orderly-build_existing_response)
