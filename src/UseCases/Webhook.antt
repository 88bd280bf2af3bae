-- ===== src/UseCases/Webhook.antt =====
-- app/application/use_cases/process_webhook.py and the payload that it takes.
pub mod Orderly
pub mod Payload
pub mod Steps
pub mod Handlers
pub mod Methods
pub mod Execute
pub mod Run
pub mod Frames
pub mod Atomic
pub mod Recorded
pub mod Idempotence
pub mod Repeat
pub mod Examples
