-- ===== src/Workers.antt =====
-- The background jobs of app/workers/tasks.py, and their account in Redis of app/infra/jobs.py.
pub mod Redis
pub mod World
pub mod Account
pub mod Deliveries
pub mod Webhook
pub mod Requests
pub mod Sending
pub mod Sync
pub mod Reconciliation
pub mod Orderly
pub mod Jobs
mod Examples
