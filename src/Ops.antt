-- ===== src/Ops.antt =====
-- src/ops.rs: the refresh queue, its workers, and what a run answers.
pub mod Reasons
pub mod State
pub mod Queue
pub mod Worker
pub mod System
pub mod Events
mod Examples
