-- ===== src/Engine/Entry/Holds.antt =====
-- What the tracking entry of a document says of the stored document, and that no step of a sync
-- makes it false.
mod Agree
pub mod Closed
pub mod Start
pub mod Final
pub mod Committed
pub use Agree.*
