-- ===== src/Calls/Invariant.antt =====
-- What the tables of the calls always satisfy, and that each INSERT and UPDATE keeps it under the
-- condition that its callers establish.
mod CallRows
mod Steps
mod Moves
pub use CallRows.*
pub use Steps.*
pub use Moves.*
