-- ===== src/Lib.antt =====
-- Billing Core: customers, payments and subscriptions of several systems, billed by the gateways
-- Asaas and MercadoPago. A gateway reports what happened by webhooks; the core keeps payments and
-- subscriptions in a database and tells the system that owns them.
--
-- The parts, and where they are modelled:
--   Shared        tests, lists, texts, integers, JSON and actions. `Action S A` is a method that
--                 reads and writes a state and may raise: what was written before a raise stays
--                 written. `Error` has the classes of exceptions.
--   Domain        app/domain. Enums (enums/), Payment, Subscription, Customer, Operation, Delivery
--                 and Event (entities/, one function for each method), Calendar (the dates, and
--                 _add_billing_period of entities/subscription.py), Documents (value_objects/cpf.py
--                 and cnpj.py).
--   Store         app/infra/repo, app/infra/interfaces/uow_provider.py and the constraints of
--                 app/infra/db/models. Tables: the rows of a table and `save`. Session: the working
--                 and the committed database, commit and rollback. Repositories: the lookups.
--   UseCases      app/application/use_cases. Reconcile: apply_gateway_payment_status of
--                 reconcile_payment.py, its use case, and sync_checkout_status.py. Webhook:
--                 process_webhook.py, with the payload of app/application/dtos/request/webhook.py.
--                 Checkout: create_checkout.py. Cancellation: cancel_subscription.py.
--                 Creation: create_subscription.py. OperationLog: the record of a call of a
--                 gateway, which these three write.
--   Workers       app/workers/tasks.py and app/infra/jobs.py. Redis: the keys that jobs keep.
--                 World: the database and Redis, which a job works on in one session after another.
--                 Account: the metadata of a job and the handlers of its exceptions. Deliveries:
--                 what tells a system of an event. Webhook, Requests, Sending, Reconciliation and
--                 Sync: the eight jobs. Jobs: a row of jobs.
--   Gateways      app/infra/interfaces/mercadopago_mappers.py, and get_checkout and resolve_webhook
--                 of app/infra/interfaces/mercadopago_provider.py. MercadoPago: its resources and
--                 their statuses. Checkouts: the status of a checkout. Notifications: what a
--                 notification becomes for the webhook use case.
-- The domain knows nothing of the store; the use cases call both, and the jobs call the use cases,
-- as in the code.
--
-- How the code is read:
--   * A text is a list of code points. Letters change case as Shared/Texts says, which a comparison
--     with an ASCII word does not tell from Python.
--   * A gateway is a parameter of the use cases that call it: any function from the arguments to an
--     answer or an exception.
--   * An amount of money, a Decimal with a fixed number of places, is an integer of its smallest
--     unit; an identifier of a row, a UUID, is a number that the database hands out.
--   * A datetime has its offset from UTC, counted from the west so that it is not negative; two
--     datetimes are compared by their instants, as Python does for aware ones. What MercadoPago
--     sends may have no offset, and is then not compared.
--   * The time that the code asks for is an argument, one for each call of datetime.now.
--   * A session has the working database, the committed one, and a list that says for each
--     statement to come whether the connection fails. `save` writes at once and gives the row as
--     the constructor of the entity rebuilds it, errors of the constructor included.
--   * A branch of a long function is a function of its own, named for what it does.
--   * The lines that the jobs share, their handlers of exceptions and the updates of their metadata,
--     are one function each, with the name of the job as an argument.
--   * A job reads and writes Redis by five commands, of which the model keeps what they document:
--     set with nx, get, delete, hset of a mapping and zadd to a set. They are taken to answer; the
--     queue is the list of the deliveries that are to be sent. The lock of an event has a time to
--     live that is longer than a job; that it does not expire is a condition where it matters.
--   * A resource of the API of MercadoPago is a record of the fields that are read of it, each as the
--     text or amount that the code makes of it; the calls of the API are parameters.
--   * pydantic's reading of the arguments of a job is a parameter, any function to a request or an
--     error.
-- Loops of the code run over lists and are structural. The digits of a number are printed on fuel,
-- one more than the number, which has no more digits.
--
-- Not modelled: the HTTP side (routes, schemas, the requests to the gateways), the settings of the
-- queue, the e-mail address of a customer, the use case that makes a customer, configuration,
-- logging and migrations.
-- Foreign keys and row locks are left out of the store; runs interleave only at the lock of an event.
pub mod Shared
pub mod Domain
pub mod Store
pub mod UseCases
pub mod Workers
pub mod Gateways
