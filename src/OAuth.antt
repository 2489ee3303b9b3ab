-- ===== src/OAuth.antt =====
-- The OAuth helper: the settings of the resource servers, and the start of a session.
pub mod Defs
pub mod Defaults
pub mod Initialize
pub mod Session
pub mod Login
pub mod Readiness
pub mod Logout
pub mod Client
pub mod Notices
