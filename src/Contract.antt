-- ===== src/Contract.antt =====
-- The vocabulary of both tiers: api/src/contract.
pub mod Profiles
pub mod Errors
pub mod Identity
pub mod Uri
pub mod Key
pub mod Schemas
pub mod Checks
pub mod Documents
