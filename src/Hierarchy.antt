-- ===== src/Hierarchy.antt =====
-- internal/conditions/types/hierarchy.go: the hierarchy type of the condition language.
pub mod Values
pub mod Prefixes
pub mod Relations
mod Examples
