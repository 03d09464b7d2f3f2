-- ===== src/Namer.antt =====
-- internal/namer/namer.go: names of policies, and the scopes above a scope.
pub mod Sanitize
pub mod Scopes
pub mod Fqn
mod Examples
