-- ===== src/ParentRoles.antt =====
-- internal/ruletable/index/index.go: the parent roles that role policies give to roles, by scope.
pub mod Index
pub mod Closure
pub mod Reachability
pub mod Additions
mod Examples
