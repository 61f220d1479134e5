-- ===== src/Refresh.antt =====
-- src/catalog_refresh.rs: the full refresh of the catalog.
pub mod Manager
pub mod Job
pub mod System
pub mod Pieces
pub mod Single
pub mod Complete
pub mod Limit
pub mod Examples
