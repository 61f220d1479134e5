-- ===== src/Alerts.antt =====
-- What users are told: src/notification_content.rs, the deliveries of src/ops.rs and the poll of
-- src/poller.rs.
pub mod Texts
pub mod Content
pub mod Records
pub mod Deliver
pub mod Statuses
pub mod Settled
pub mod Audience
pub mod Lifecycle
pub mod Panics
pub mod Items
pub mod Poll
pub mod Told
pub mod Places
pub mod Pages
pub mod Examples
