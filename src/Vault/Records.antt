-- ===== src/Vault/Records.antt =====
-- Records of a vault in crates/seance-vault/src/lib.rs: store_record, load_record_payload,
-- delete_record and record_modified_at, for any type that has an identity and is written by serde.
pub mod Reading
pub mod Writing
pub mod Deletion
use mathlib.Core.Option
use seance.Prelude.{
  ℕ, Bool, true, false, Option, none, some, if◌then◌else◌, is_empty, is_some, Text, codes, ◌++◌,
  Result, ok, err,
}
use seance.Prelude.Compare.{ℤ}
use seance.Vault.Exec.{Exec, pure, raise, lift, gets, ok_or, modify, ◌>>=◌, ◌>>◌}
use seance.Vault.Model.{
  Bytes, RecordKind, host_kind, password_credential_kind, private_key_kind, snippet_kind,
  port_forward_kind, VaultHeader, EncryptedRecord, RecordSyncState, pending, record_schema_version,
}
use seance.Vault.Failure.{VaultError, serialization, vault_not_initialized, corrupt_vault}
use seance.Vault.Storage.{with_clock, bump_logical_clock, load_record, upsert_record}
use seance.Vault.Crypto.{Primitives, SecretKey, CipherEnvelope, encrypt, record_key_aad, record_aad}
use seance.Vault.Session.{VaultStore, Method, sql, get_header, get_master_key}
use seance.Vault.Profiles.{Stored}
use seance.Vault.Decrypt.{found_or, decrypt_record}

-- What a write draws: an id, two readings of the clock, the record's key and two nonces.
pub record WriteDraws : Type 0 where
  pub uuid : Text
  pub bumped_at : ℤ
  pub now : ℤ
  pub record_key : Bytes
  pub key_nonce : Bytes
  pub payload_nonce : Bytes

-- The clock goes up in the database, then in the header in memory.
unfoldable pub advance_clock : {D : Type 0} → ℤ → ℤ → Method D ℕ
advance_clock bumped_at now = do
  clock ← sql (bump_logical_clock bumped_at)
  modify (λ s. record s { header = Option.map (with_clock clock now) s.header })
  pure clock

unfoldable pub synced_clock : Option EncryptedRecord → Option ℕ
synced_clock none = none
synced_clock (some r) = r.last_synced_clock

unfoldable pub tombstone : EncryptedRecord → ℕ → ℤ → EncryptedRecord
tombstone r clock now = record r {
  logical_clock = clock;
  modified_at = now;
  deleted_at = some now;
  sync_state = pending;
}

unfoldable pub delete_found : {D : Type 0} → Option EncryptedRecord → ℤ → ℤ → Method D Bool
unfolding advance_clock tombstone
delete_found none bumped_at now = pure false
delete_found (some r) bumped_at now = if is_some r.deleted_at then pure false else (do
  clock ← advance_clock bumped_at now
  sql (upsert_record (tombstone r clock now))
  pure true)

unfoldable pub delete_record : {D : Type 0} → Text → RecordKind → ℤ → ℤ → Method D Bool
unfolding delete_found
delete_record record_id kind bumped_at now = do
  found ← sql (load_record record_id kind)
  delete_found found bumped_at now

-- What `{kind:?}` prints.
kind_debug : RecordKind → Text
kind_debug host_kind = codes "Host"
kind_debug password_credential_kind = codes "PasswordCredential"
kind_debug private_key_kind = codes "PrivateKey"
kind_debug snippet_kind = codes "Snippet"
kind_debug port_forward_kind = codes "PortForward"

unfoldable pub record_modified_at : {D : Type 0} → Text → RecordKind → Method D ℤ
unfolding kind_debug
record_modified_at id kind = do
  found ← sql (load_record id kind)
  r ← ok_or found (corrupt_vault (codes "missing " ++ kind_debug kind ++ codes " record " ++ id))
  pure r.modified_at

module _ {T : Type 0} (stored : Stored T) where
  -- An empty id is drawn anew.
  unfoldable pub with_id : T → Text → T
  with_id value uuid =
      if is_empty (stored.record_id value) then stored.set_record_id value uuid else value

  unfoldable pub sealed_record :
      T → RecordKind → ℕ → WriteDraws → Option ℕ → CipherEnvelope → CipherEnvelope → EncryptedRecord
  sealed_record value kind clock draws previous wrapped envelope = record {
    record_id = stored.record_id value;
    kind = kind;
    version = record_schema_version;
    logical_clock = clock;
    modified_at = draws.now;
    deleted_at = none;
    key_nonce = wrapped.nonce;
    wrapped_record_key = wrapped.ciphertext;
    payload_nonce = envelope.nonce;
    payload_ciphertext = envelope.ciphertext;
    last_synced_clock = previous;
    sync_state = pending;
  }

module _ {D T : Type 0} (lib : Primitives) (stored : Stored T) where
  unfoldable pub decrypted : EncryptedRecord → Method D T
  unfolding decrypt_record
  decrypted r = do s ← gets (λ s. s); lift (decrypt_record lib stored s.master_key s.header r)

  unfoldable pub load_found : Option EncryptedRecord → Method D (Option T)
  unfolding decrypted
  load_found none = pure none
  load_found (some r) =
      if is_some r.deleted_at then pure none else (do value ← decrypted r; pure (some value))

  unfoldable pub load_record_payload : Text → RecordKind → Method D (Option T)
  unfolding load_found
  load_record_payload record_id kind = do found ← sql (load_record record_id kind); load_found found

  -- What follows once the record has its id.
  unfoldable pub write_record :
      T → RecordKind → SecretKey → VaultHeader → WriteDraws → Method D (Unit {0})
  unfolding advance_clock synced_clock sealed_record found_or
  write_record value kind master_key header draws = do
    previous ← sql (load_record (stored.record_id value) kind)
    clock ← advance_clock draws.bumped_at draws.now
    payload ← lift (found_or serialization (stored.to_vec value))
    envelope ← lift (
        encrypt lib (record { bytes = draws.record_key }) payload
          (record_aad header.vault_id (stored.record_id value) kind record_schema_version)
          draws.payload_nonce)
    wrapped ← lift (
        encrypt lib master_key draws.record_key
          (record_key_aad header.vault_id (stored.record_id value)) draws.key_nonce)
    sql (
        upsert_record
          (sealed_record stored value kind clock draws (synced_clock previous) wrapped envelope))

  -- The value comes back with its id, which the code writes into it.
  unfoldable pub store_record : T → RecordKind → WriteDraws → Method D T
  unfolding with_id write_record
  store_record value kind draws = do
    master_key ← get_master_key
    header ← get_header vault_not_initialized
    write_record (with_id stored value draws.uuid) kind master_key header draws
    pure (with_id stored value draws.uuid)
