-- ===== src/Tests.antt =====
-- The theorems at concrete inputs.
pub mod Samples
pub mod Writer
pub mod Core
pub mod Admission
pub mod Delivery
pub mod Worker
pub mod Interface
pub mod Requests
pub mod Completion
pub mod Outcomes
pub mod Server
pub mod Support
