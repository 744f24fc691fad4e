-- ===== src/Iam.antt =====
-- crates/heterocloud-iam and the policy part of crates/heterocloud-domain/src/lib.rs.
pub mod Pattern
pub mod Policy
pub mod Authorize
pub mod Limits
pub mod RoleTrust
mod Examples
