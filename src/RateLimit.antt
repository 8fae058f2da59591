-- ===== src/RateLimit.antt =====
-- internal/ratelimit: how many requests a key may make in a window of time.
pub mod Limiter
pub mod Window
