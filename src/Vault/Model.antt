-- ===== src/Vault/Model.antt =====
-- The records of a vault, crates/seance-vault/src/model.rs, with KdfParams of
-- crates/seance-vault/src/kdf.rs. u16, u32 and u64 are native numbers, i64 is ℤ.
pub mod Kinds
use seance.Prelude.{
  ℕ, Bool, true, false, Option, none, some, List, [], ◌∷◌, map, if◌then◌else◌, Text, codes,
  list_beq, nat_eq, list_eq,
}
use seance.Prelude.Compare.{ℤ}
pub use seance.Core.AuthIndex.{HostAuthRef, password, private_key, HostAuthSummary}

abbrev pub Bytes : Type 0
Bytes = List ℕ

abbrev pub vault_schema_version : ℕ
vault_schema_version = 1

abbrev pub record_schema_version : ℕ
record_schema_version = 1

pub data RecordKind : Type 0 where
  host_kind password_credential_kind private_key_kind snippet_kind port_forward_kind : RecordKind

unfoldable pub kind_as_str : RecordKind → Text
kind_as_str host_kind = codes "host"
kind_as_str password_credential_kind = codes "password_credential"
kind_as_str private_key_kind = codes "private_key"
kind_as_str snippet_kind = codes "snippet"
kind_as_str port_forward_kind = codes "port_forward"

-- The arms of a `match` on a text, in order.
unfoldable pub match_text {ℓ} : {A : Type ℓ} → Text → List (Text × A) → Option A
match_text value [] = none
match_text value ((key, a) ∷ arms) =
    let rest = match_text value arms in if list_beq value key then some a else rest

unfoldable pub kind_from_str : Text → Option RecordKind
unfolding match_text
kind_from_str value = match_text value (
    (codes "host", host_kind)
    ∷ (codes "password_credential", password_credential_kind)
    ∷ (codes "private_key", private_key_kind)
    ∷ (codes "snippet", snippet_kind)
    ∷ (codes "port_forward", port_forward_kind)
    ∷ [])

pub record KdfParams : Type 0 where
  pub salt : Bytes
  pub memory_kib : ℕ
  pub iterations : ℕ
  pub parallelism : ℕ

pub record VaultHeader : Type 0 where
  pub vault_id : Text
  pub schema_version : ℕ
  pub cipher : Text
  pub recovery_kdf : KdfParams
  pub created_at : ℤ
  pub updated_at : ℤ
  pub last_logical_clock : ℕ

pub record RecoveryBundle : Type 0 where
  pub bundle_id : Text
  pub params : KdfParams
  pub wrapping_nonce : Bytes
  pub wrapped_master_key : Bytes
  pub created_at : ℤ
  pub updated_at : ℤ

pub record DeviceEnrollment : Type 0 where
  pub device_id : Text
  pub device_name : Text
  pub wrapping_nonce : Bytes
  pub wrapped_master_key : Bytes
  pub created_at : ℤ
  pub last_used_at : ℤ
  pub revoked_at : Option ℤ

pub data RecordSyncState : Type 0 where
  pending synced : RecordSyncState

unfoldable pub sync_state_as_str : RecordSyncState → Text
sync_state_as_str pending = codes "pending"
sync_state_as_str synced = codes "synced"

unfoldable pub sync_state_from_str : Text → Option RecordSyncState
unfolding match_text
sync_state_from_str value =
    match_text value ((codes "pending", pending) ∷ (codes "synced", synced) ∷ [])

pub record EncryptedRecord : Type 0 where
  pub record_id : Text
  pub kind : RecordKind
  pub version : ℕ
  pub logical_clock : ℕ
  pub modified_at : ℤ
  pub deleted_at : Option ℤ
  pub key_nonce : Bytes
  pub wrapped_record_key : Bytes
  pub payload_nonce : Bytes
  pub payload_ciphertext : Bytes
  pub last_synced_clock : Option ℕ
  pub sync_state : RecordSyncState

pub record SyncCursor : Type 0 where
  pub logical_clock : ℕ

pub record VaultDeltaRecord : Type 0 where
  pub record_id : Text
  pub kind : RecordKind
  pub version : ℕ
  pub logical_clock : ℕ
  pub modified_at : ℤ
  pub deleted_at : Option ℤ
  pub key_nonce : Bytes
  pub wrapped_record_key : Bytes
  pub payload_nonce : Bytes
  pub payload_ciphertext : Bytes

pub record VaultSnapshot : Type 0 where
  pub header : VaultHeader
  pub recovery_bundle : RecoveryBundle
  pub device_enrollments : List DeviceEnrollment
  pub records : List VaultDeltaRecord

pub record VaultDelta : Type 0 where
  pub vault_id : Text
  pub from_clock : ℕ
  pub to_clock : ℕ
  pub records : List VaultDeltaRecord

pub record ApplyDeltaReport : Type 0 where
  pub applied_records : ℕ
  pub skipped_records : ℕ
  pub new_cursor : SyncCursor

-- From<EncryptedRecord> for VaultDeltaRecord
unfoldable pub delta_record : EncryptedRecord → VaultDeltaRecord
delta_record r = record {
  record_id = r.record_id;
  kind = r.kind;
  version = r.version;
  logical_clock = r.logical_clock;
  modified_at = r.modified_at;
  deleted_at = r.deleted_at;
  key_nonce = r.key_nonce;
  wrapped_record_key = r.wrapped_record_key;
  payload_nonce = r.payload_nonce;
  payload_ciphertext = r.payload_ciphertext;
}

pub data UnlockMethod : Type 0 where
  device passphrase : UnlockMethod

pub record VaultStatus : Type 0 where
  pub initialized : Bool
  pub unlocked : Bool
  pub vault_path : Text
  pub device_unlock_available : Bool
  pub device_unlock_message : Option Text
