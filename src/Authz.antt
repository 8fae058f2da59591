-- ===== src/Authz.antt =====
-- internal/authz: what a member of a workspace may do, by role.
pub mod Permissions
pub mod Service
pub mod Matrix
