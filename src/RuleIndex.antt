-- ===== src/RuleIndex.antt =====
-- internal/ruletable/index: the rows of the rule table, indexed by the values of their fields.
pub mod SetOps
pub mod Pool
pub mod Dimension
pub mod SortedIds
pub mod Lazy
pub mod Globs
pub mod GlobFiling
pub mod GlobQueries
pub mod Rows
pub mod Indexes
pub mod Additions
pub mod Removals
pub mod Queries
pub mod Matches
pub mod ResourceQueries
pub mod Selection
pub mod Results
pub mod Existence
pub mod Deletion
pub mod BitmapSets
pub mod Start
mod Examples
