-- ===== src/Workers/Reconciliation.antt =====
-- `reconcile_gateway_operations_worker` of app/workers/tasks.py: what a gateway has done, and the
-- core has not written, is written later.
pub mod Payload
pub mod Subscriptions
pub mod Checkouts
pub mod Run
pub mod Orderly
pub mod Found
pub mod Unmirrored
pub mod Settled
