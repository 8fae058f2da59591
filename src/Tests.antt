-- ===== src/Tests.antt =====
-- Runs of the model at concrete inputs, and the theorems applied there.
mod Data
mod Calls
mod Accounts
mod Members
mod Realtime
mod Chat
mod Channels
mod Presence
mod Plans
mod Notifications
mod Origins
