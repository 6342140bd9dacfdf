-- ===== src/Lab.antt =====
-- services/platform-api/internal/lab: sessions, admission, actions and topology.
pub mod Status
pub mod Quota
pub mod Identity
pub mod Action
pub mod Errors
pub mod Topology
pub mod Repository
pub mod Service
pub mod Scenario
mod Tests
