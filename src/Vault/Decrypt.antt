-- ===== src/Vault/Decrypt.antt =====
-- VaultStore::decrypt_record of crates/seance-vault/src/lib.rs: reading a record back with the keys
-- of an unlocked vault.
use seance.Prelude.{Option, none, some, Text, Result, ok, err, ◌>>=◌}
use seance.Vault.Model.{VaultHeader, EncryptedRecord}
use seance.Vault.Failure.{VaultError, serialization, vault_not_initialized, vault_locked}
use seance.Vault.Crypto.{Primitives, SecretKey, from_slice, decrypt, record_key_aad, record_aad}
use seance.Vault.Profiles.{Stored}

-- Option::ok_or
unfoldable pub found_or : {A : Type 0} → VaultError → Option A → Result VaultError A
found_or e none = err e
found_or e (some a) = ok a

module _ {T : Type 0} (lib : Primitives) (stored : Stored T) where
  -- The record's own key is unwrapped, then its payload is opened and read.
  unfoldable pub decrypt_with : SecretKey → Text → EncryptedRecord → Result VaultError T
  unfolding found_or
  decrypt_with master_key vault_id r = do
    wrapped ←
        decrypt lib master_key r.key_nonce r.wrapped_record_key
          (record_key_aad vault_id r.record_id)
    record_key ← from_slice wrapped
    payload ←
        decrypt lib record_key r.payload_nonce r.payload_ciphertext
          (record_aad vault_id r.record_id r.kind r.version)
    found_or serialization (stored.from_vec payload)

  unfoldable pub decrypt_record :
      Option SecretKey → Option VaultHeader → EncryptedRecord → Result VaultError T
  unfolding decrypt_with found_or
  decrypt_record master_key header r = do
    key ← found_or vault_locked master_key
    h ← found_or vault_not_initialized header
    decrypt_with key h.vault_id r
