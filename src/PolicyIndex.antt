-- ===== src/PolicyIndex.antt =====
-- internal/storage/index/index.go: the index of policy files, their modules and dependencies.
pub mod State
pub mod Links
pub mod Invariant
pub mod Additions
pub mod Updates
pub mod Dependents
pub mod Closure
pub mod Reachability
mod Examples
