-- ===== src/Api.antt =====
-- crates/pulsestream-api: the handlers of the HTTP interface (src/events.rs, src/error.rs,
-- src/health.rs). axum's extractors run first: a handler is given the value of the
-- Idempotency-Key header, and the request body or the reason why it was rejected.
pub mod Errors
pub mod Response
pub mod Events
pub mod Router
pub mod Health
