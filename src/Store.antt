-- ===== src/Store.antt =====
-- crates/heterocloud-store: what it reserves for a tenant, the rows of services and the outbox.
pub mod Allocation
pub mod Lifecycle
pub mod Outbox
pub mod Buckets
pub mod Rooms
pub mod LoginState
pub mod DeviceLogin
pub mod ServiceExamples
mod OutboxExamples
pub mod MemberQuotas
pub mod MemberAllocation
pub mod Reconciles
mod QuotaExamples
pub mod LoginExamples
pub mod Examples
