-- ===== src/Presence.antt =====
-- internal/presence: who is online, and where.
pub mod Store
pub mod Entries
pub mod Log
pub mod Spec
pub mod Opening
pub mod Closing
pub mod Tracking
pub mod Reads
pub mod Service
pub mod Listing
