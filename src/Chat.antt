-- ===== src/Chat.antt =====
-- internal/chat: the messages of a channel.
pub mod Service
pub mod Rights
pub mod Sending
pub mod Reading
pub mod Engine
