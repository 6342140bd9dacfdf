-- ===== src/Operation.antt =====
-- services/platform-api/internal/operation: the persistent queue of operations, and what their completion
-- writes.
pub mod Queue
pub mod Provision
pub mod Endings
pub mod Changes
pub mod Caches
pub mod Moves
pub mod Completions
pub mod Activity
pub mod Teardown
pub mod Worker
