-- ===== src/Webhooks.antt =====
-- server/src/modules/webhooks.
pub mod Addresses
pub mod Fetch
pub mod Routes
pub mod Delivery
pub mod Endpoints
