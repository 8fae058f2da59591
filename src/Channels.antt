-- ===== src/Channels.antt =====
-- internal/channels: the channels of a workspace and who may call in one.
pub mod Access
pub mod Service
pub mod Effects
pub mod Creation
pub mod History
