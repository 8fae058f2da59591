-- ===== src/Queries.antt =====
-- The queries of internal/db, group by group.
pub mod Calls
pub mod Org
pub mod Billing
pub mod Plans
pub mod Notices
