-- ===== src/Cli.antt =====
-- Suggestions for a mistyped resource name, in internal/cli/suggest.go.
pub mod Distance
pub mod Suggest
pub mod Words
mod Tests
