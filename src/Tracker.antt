-- ===== src/Tracker.antt =====
-- The asynchronous request tracker of include/ravl/request_tracker.h and request_tracker_impl.h.
pub mod State
pub mod Advance
pub mod Api
pub mod Outcome
pub mod Runs
pub mod Accept
pub mod Refines
pub mod Order
pub mod Forward
pub mod Events
pub mod Sound
pub mod Completes
