-- ===== src/Bootstrap/Coordinator.antt =====
-- internal/bootstrap/cluster.go: the coordinator. Its children follow the file: the requests that it
-- makes, the calls that execute and verify a step, the commits to the journal, and `StartBootstrap`.
pub mod Agreement
pub mod Requests
pub mod Execute
pub mod Verify
pub mod Commit
pub mod Start
