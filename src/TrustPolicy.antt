-- ===== src/TrustPolicy.antt =====
-- pkg/trustpolicy: what an administrator decides about the software a host may run.
pub mod Origin
pub mod Policy
pub mod Decide
pub mod Reputation
pub mod Validate
