-- ===== src/Vault.antt =====
-- crates/seance-vault: the encrypted store of hosts, credentials, keys and port forwards.
pub mod Exec
pub mod Model
pub mod Failure
pub mod Storage
pub mod Crypto
pub mod Session
pub mod Passphrase
pub mod Device
pub mod Profiles
pub mod Decrypt
pub mod Records
pub mod Sync
pub mod Keys
pub mod Items
pub mod Writes
pub mod Sound
pub mod Tests
