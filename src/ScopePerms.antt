-- ===== src/ScopePerms.antt =====
-- internal/policy/scopeperms/scopeperms.go: the policies of a scope share one setting.
pub mod Tracker
pub mod Tracking
pub mod Agreement
mod Examples
