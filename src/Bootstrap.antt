-- ===== src/Bootstrap.antt =====
-- The bootstrap service (internal/bootstrap): types, validation of inputs, the durable journal and
-- its store, and the coordinator of the nine steps.
pub mod Step
pub mod Error
pub mod Identifier
pub mod Config
pub mod Journal
pub mod Request
pub mod Machine
pub mod Store
pub mod Coordinator
pub mod Safety
pub mod Guarantees
pub mod Status
pub mod Readiness
