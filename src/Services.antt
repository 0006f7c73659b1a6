-- ===== src/Services.antt =====
-- src/services: the calls of the back end, and the subscriptions to its events.
pub mod Value
pub mod Invoke
pub mod Api
pub mod Events
pub mod Logging
