-- ===== src/Schedule.antt =====
-- src/poller.rs: when the poller does what.
pub mod Round
pub mod Users
pub mod Polls
pub mod Jobs
pub mod Examples
