-- ===== src/Lazycat.antt =====
-- src/lazycat.rs and the tables of src/db.rs that it writes: the account of one user at the hosting
-- panel and its synchronisation.
pub mod Store
pub mod Sync
pub mod Run
pub mod Rows
pub mod Mappings
pub mod Panels
pub mod Ends
pub mod Cookies
pub mod Guard
pub mod Examples
