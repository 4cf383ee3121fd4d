-- ===== src/Machine.antt =====
-- The event core of internal/machine: the types that events carry, and the event stream.
pub mod Types
pub mod Events
pub mod Execute
pub mod Executor
pub mod Failure
pub mod Refusal
pub mod Request
