-- ===== src/Vault/Sound.antt =====
-- What holds of a vault of crates/seance-vault/src/lib.rs between two calls, whatever statements of
-- SQL have failed.
pub mod Statements
pub mod Unlocking
pub mod Contents
pub mod Exchange
pub mod Calls
use seance.Prelude.{ℕ, ◌≤◌, Bool, Option, none, some, List, is_some, length, All, ◌≡◌}
use seance.Vault.Model.{EncryptedRecord, RecordSyncState, pending, synced}
use seance.Vault.Storage.{Conn}
use seance.Vault.Storage.Rows.{Keyed}
use seance.Vault.Storage.Quiet.{Fits, OptionFits}
use seance.Vault.Session.{VaultStore}

-- A record that is marked as synced was synced at its own clock.
abbrev pub SyncedAt : RecordSyncState → EncryptedRecord → Type 0
SyncedAt pending r = Unit
SyncedAt synced r = r.last_synced_clock ≡ some r.logical_clock

abbrev pub RowSound : EncryptedRecord → Type 0
RowSound r = Fits r.logical_clock × (OptionFits r.last_synced_clock × SyncedAt r.sync_state r)

pub record TablesSound (c : Conn) : Type 0 where
  pub keyed : Keyed c.records
  pub rows : All RowSound c.records
  pub bundles : length c.recovery_bundles ≤ 1

pub record IsSound {D : Type 0} (s : VaultStore D) : Type 0 where
  pub tables : TablesSound s.conn
  pub by_method : is_some s.master_key ≡ is_some s.last_unlock_method
