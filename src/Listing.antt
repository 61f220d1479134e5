-- ===== src/Listing.antt =====
-- src/db.rs: what a fetched page does to the stored packages.
pub mod Store
pub mod Apply
pub mod Rows
pub mod Exact
pub mod Retired
pub mod Examples
pub mod Announced
