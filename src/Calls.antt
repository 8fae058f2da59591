-- ===== src/Calls.antt =====
-- internal/calls: the life of a voice or video call in a channel (ringing, active, ended), who is in
-- it, its recordings, and what an ended video call is billed.
--
-- The service meets the rest of the program through interfaces: `CallBilling` (internal/billing),
-- the channel access check (internal/channels), and the Broadcaster and InviteNotifier, whose calls
-- are kept in `Db.sent`.
pub mod Interfaces
pub mod Metering
pub mod Charge
pub mod Service
pub mod Recordings
pub mod Invariant
mod Frames
mod Rules
pub mod Safety
pub mod History
pub mod Steady
pub mod Quiet
pub mod Arrival
pub mod Blocked
pub mod Departure
pub mod Invitations
pub mod Opening
