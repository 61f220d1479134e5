-- ===== src/Topology.antt =====
-- src/poller.rs: what a fetched topology does to the catalog.
pub mod Merge
pub mod Changes
pub mod Refreshed
pub mod Targets
pub mod Preserve
pub mod Apply
pub mod Examples
