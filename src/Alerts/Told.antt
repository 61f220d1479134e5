-- ===== src/Alerts/Told.antt =====
-- Who is told what of a listed or delisted package.
mod Counts
mod Rows
mod Exactly
pub use Counts.*
pub use Rows.*
pub use Exactly.*
