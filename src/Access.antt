-- ===== src/Access.antt =====
-- Who may do what: packages/auth-core, and the sessions and groups of apps/api/src.
pub mod Roles
pub mod Value
pub mod Request
pub mod Guard
pub mod Sessions
pub mod Groups
