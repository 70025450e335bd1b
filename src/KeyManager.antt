-- ===== src/KeyManager.antt =====
-- internal/keymanager: the keys that a device keeps in its TPM, one active key for each role.
pub mod Error
pub mod Outcome
pub mod Tpm
pub mod Policy
pub mod Snapshot
pub mod Machine
pub mod Rules
pub mod Store
pub mod Manager
pub mod Safety
pub mod Guarantees
