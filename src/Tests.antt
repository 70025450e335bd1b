-- ===== src/Tests.antt =====
-- Tests: a sample world, runs in it, and each theorem at work there.
mod Codec
mod Keys
pub mod KeyExamples
pub mod KeyRuns
pub mod Sample
pub mod Runs
pub mod Examples
