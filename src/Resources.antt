-- ===== src/Resources.antt =====
-- internal/resources: the catalog's field rules, projection, and what narrows projected records.
pub mod Spec
pub mod Value
pub mod Select
pub mod Availability
pub mod Encodable
pub mod Filters
pub mod Narrow
pub mod Project
pub mod Verify
pub mod Rendered
pub mod Supported
pub mod Accepted
pub mod Validate
mod Tests
