-- ===== src/Workers/Examples/Locks.antt =====
-- Two jobs for one event.
use billing_core.Shared.{◌≡◌, ◌≢◌, refl, ap, inl, true, [], ◌∷◌, some, none, arith, any, length}
use billing_core.Shared.Texts.{Text, lit, text_eq, upper}
use billing_core.Shared.Json.{null}
use billing_core.Shared.Dict.{lookup, insert}
use billing_core.Shared.Actions.{ok, ◌>>=◌, pure}
use billing_core.Domain.Enums.{GatewayProvider, provider_named}
use billing_core.UseCases.Webhook.Payload.{EventType}
use billing_core.UseCases.Webhook.Examples.{payload, deleted_id, deleted_identified}
use billing_core.Workers.Redis.{set_nx, get}
use billing_core.Workers.World.{World, duplicate}
use billing_core.Workers.Webhook.{acquire_lock, process_webhook, lock_key}
use billing_core.Workers.Webhook.Lock.{holder}
use billing_core.Workers.Webhook.Exclusion.{
  Scene, Reachable, starts, steps, enters, is_refused, works, Reachable-exclusion,
}
use billing_core.Workers.Webhook.Holder.{is_over, left_to}
use billing_core.Workers.Webhook.Entry.{process_webhook-holder, process_webhook-duplicate}
use billing_core.Workers.Examples.{notified, job, redis, world}

abbrev one : Text
one = lit "job-1"

abbrev other : Text
other = lit "job-2"

abbrev entered : Scene
entered = record { redis = (acquire_lock deleted_id one redis).1; working = one ∷ [] }

abbrev refused : Scene
refused = record entered { redis = (acquire_lock deleted_id other entered.redis).1 }

refused-Reachable : Reachable deleted_id refused
unfolding acquire_lock set_nx get lookup insert ◌>>=◌ pure lock_key text_eq lit any
refused-Reachable =
    steps entered refused
      (steps (record { redis = redis; working = [] }) entered (starts redis)
        (enters (record { redis = redis; working = [] }) one refl refl))
      (is_refused entered other refl)

at_work : works one refused.working ≡ true
unfolding any text_eq lit
at_work = refl

Reachable-exclusion_example :
    (length refused.working ≡ 1) × (holder deleted_id refused.redis ≡ some one)
Reachable-exclusion_example = Reachable-exclusion deleted_id one refused-Reachable at_work

abbrev provider : Text
provider = lit "asaas"

known_provider : provider_named (upper provider) ≡ ok GatewayProvider.asaas
unfolding provider_named upper text_eq lit
known_provider = refl

free : holder deleted_id world.redis ≡ none
unfolding holder lookup
free = refl

process_webhook-holder_example :
    holder deleted_id (process_webhook notified job null provider world).1.redis
    ≡ left_to notified job
        (is_over notified job (process_webhook notified job null provider world).0)
process_webhook-holder_example =
    process_webhook-holder notified job null provider GatewayProvider.asaas
      (payload EventType.payment_deleted) deleted_id known_provider refl deleted_identified world
      (inl free)

abbrev held : World
held = record world { redis = (acquire_lock deleted_id other redis).1 }

held_by_other : holder deleted_id held.redis ≡ some other
unfolding holder acquire_lock set_nx lookup insert ◌>>=◌ pure lock_key text_eq lit
held_by_other = refl

other_job : other ≢ job.job_id
unfolding lit
other_job e = ground (arith, ap (text_eq other) e)

process_webhook-duplicate_example :
    let (r, t) = process_webhook notified job null provider held in
    (r ≡ ok duplicate)
    × (t.db ≡ held.db)
    × (t.redis.locks ≡ held.redis.locks)
    × (t.redis.queue ≡ held.redis.queue)
    × (t.redis.dead_letters ≡ held.redis.dead_letters)
process_webhook-duplicate_example =
    process_webhook-duplicate notified job null provider GatewayProvider.asaas
      (payload EventType.payment_deleted) deleted_id known_provider refl deleted_identified held
      held_by_other other_job
