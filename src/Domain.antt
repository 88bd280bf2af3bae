-- ===== src/Domain.antt =====
-- The entities, value objects and enums of app/domain.
pub mod Enums
pub mod Calendar
pub mod Payment
pub mod Subscription
pub mod Operation
pub mod Delivery
pub mod Event
pub mod Documents
pub mod Customer
pub mod Examples
