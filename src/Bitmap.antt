-- ===== src/Bitmap.antt =====
-- internal/ruletable/index/bitmap.go: sets of row numbers as two levels of 64-bit words.
pub mod Words
pub mod Zeros
pub mod Loops
pub mod Cells
pub mod Sets
pub mod Consistency
pub mod Members
pub mod Batch
pub mod Union
pub mod Groups
pub mod Intersection
pub mod Overlap
pub mod Binary
pub mod Iterator
pub mod Positions
pub mod Iteration
mod Examples
