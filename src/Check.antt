-- ===== src/Check.antt =====
-- The decision procedure of internal/ruletable/check.go: conditions, rule bindings, scopes, roles
-- and actions. Tracing spans are left out: they record and never change a result.
pub mod Types
pub mod Condition
pub mod Variables
pub mod State
pub mod Rules
pub mod Walk
pub mod Roles
pub mod Scopes
pub mod Actions
pub mod Invariants
pub mod Caches
pub mod Grants
pub mod RoleGrants
pub mod Decisions
pub mod Outcomes
pub mod Answers
pub mod Refusals
pub mod Resolution
pub mod ScopeSearch
mod Examples
