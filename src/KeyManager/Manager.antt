-- ===== src/KeyManager/Manager.antt =====
-- internal/keymanager/manager.go, initialize.go and rotation.go: the manager and its scheduler.
pub mod Persist
pub mod Create
pub mod Reconcile
pub mod Operations
pub mod Rotation
pub mod Due
