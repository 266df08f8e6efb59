-- ===== src/Core.antt =====
-- crates/seance-core: the resident application's state.
pub mod Sessions
pub mod AuthIndex
pub mod VaultState
pub mod Vaults
