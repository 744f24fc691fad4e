-- ===== src/Api.antt =====
-- crates/heterocloud-api: the texts that requests carry, and who may ask for what.
pub mod Tokens
pub mod Codes
mod Examples
