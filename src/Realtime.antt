-- ===== src/Realtime.antt =====
-- internal/realtime: the sockets that one server holds, who hears an event, and its number in a channel.
pub mod Hub
pub mod Signals
pub mod Counts
pub mod Routing
pub mod Broker
pub mod Subscriptions
pub mod Sequence
