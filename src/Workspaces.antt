-- ===== src/Workspaces.antt =====
-- internal/workspaces: creating and listing workspaces, and their members and roles.
pub mod Members
pub mod Rows
pub mod Rights
pub mod Invitations
pub mod Effects
pub mod Owners
pub mod Service
pub mod Creation
