-- ===== src/Diff.antt =====
-- internal/diff: the comparison of the records of two dumps.
pub mod Number
pub mod Json
pub mod Records
pub mod Compare
mod Tests
