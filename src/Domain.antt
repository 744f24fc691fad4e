-- ===== src/Domain.antt =====
-- crates/heterocloud-domain: the specifications of services, and the limits of tenants.
pub mod Names
pub mod Deployment
pub mod Vpc
pub mod Quota
pub mod Flash
pub mod Syouyu
pub mod Flow
pub mod Examples
