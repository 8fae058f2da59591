-- ===== src/Notifications.antt =====
-- internal/notifications: who is told of a message, an invitation or a call.
pub mod Mentions
pub mod Service
pub mod Rows
pub mod Replies
pub mod Effects
pub mod Invites
pub mod CallInvites
pub mod Reading
