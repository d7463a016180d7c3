-- ===== src/ApplicationTrust.antt =====
-- pkg/applicationtrust: the portable result of a trust decision.
pub mod SafeText
pub mod Model
pub mod Fields
pub mod Validate
pub mod Resolve
