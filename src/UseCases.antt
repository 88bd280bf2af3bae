-- ===== src/UseCases.antt =====
-- The use cases of app/application/use_cases.
pub mod Reconcile
pub mod Webhook
pub mod OperationLog
pub mod Checkout
pub mod Cancellation
pub mod Creation
