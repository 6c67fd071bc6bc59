-- ===== src/Http.antt =====
-- The HTTP layer: messages, and the synchronous, asynchronous and browser clients.
pub mod Message
pub mod Curl
pub mod Sync
pub mod Async
pub mod Fetch
