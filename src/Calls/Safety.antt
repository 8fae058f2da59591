-- ===== src/Calls/Safety.antt =====
-- Every method keeps the invariant and moves calls onward only, on every path: also when a query
-- fails half way.
pub mod Pass
mod Initiate
mod Join
mod Leave
mod Recording
pub use Initiate.{initiate_call-Keeps}
pub use Join.{join_call-Keeps}
pub use Leave.{leave_call-Keeps}
pub use Recording.{start_recording-Keeps, stop_recording-Keeps, Frame-validate}
pub use Pass.{Keeps, pass, own_id}
