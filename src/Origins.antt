-- ===== src/Origins.antt =====
-- internal/origins: which web origins may call the API.
pub mod Lists
pub mod Checker
pub mod Isolation
pub mod Sources
pub mod Clean
