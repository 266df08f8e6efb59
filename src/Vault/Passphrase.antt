-- ===== src/Vault/Passphrase.antt =====
-- Creating a vault, unlocking it with a passphrase and changing the passphrase, in
-- crates/seance-vault/src/lib.rs. What is drawn at random is given with each call.
pub mod Unlock
pub mod Creation
pub mod Rotation
pub mod Interrupted
use mathlib.Core.Option
use seance.Prelude.{
  Bool, true, false, ◌&&◌, not, Option, none, some, List, [], ◌∷◌, if◌then◌else◌, is_empty, is_some,
  Text, codes, trim, Result, ok, err,
}
use seance.Prelude.Compare.{ℤ}
use seance.Vault.Exec.{Exec, pure, raise, lift, gets, ok_or, modify, raise_if, ◌>>=◌, ◌>>◌, either}
use seance.Vault.Model.{
  Bytes, KdfParams, VaultHeader, RecoveryBundle, DeviceEnrollment, UnlockMethod, device, passphrase,
  VaultStatus, vault_schema_version,
}
use seance.Vault.Failure.{
  DeviceSecretError, backend, missing_secret, unavailable_in_this_build, VaultError, database, io,
  device_secret, vault_not_initialized, vault_already_initialized, vault_locked, corrupt_vault,
  empty_passphrase,
}
use seance.Vault.Storage.{
  Conn, Sql, statement, load_header, insert_header, verify_header_integrity,
  update_header_after_rotation, insert_recovery_bundle, load_recovery_bundle,
  upsert_device_enrollment, load_device_enrollment, update_device_last_used, set_local_state,
  get_local_state, delete_local_state,
}
use seance.Vault.Crypto.{
  Primitives, SecretKey, CipherEnvelope, from_slice, encrypt, decrypt, recommended, derive_wrap_key,
  recovery_aad, decrypt_recovery_master_key, device_wrap_aad, device_account_name,
}
use seance.Vault.Session.{
  DeviceSecretStore, VaultStore, Method, DeviceDraws, device_state_key, device_unlock_build_message,
  device_unlock_reenroll_message, sql, persist_device_unlock_message, get_header, get_master_key,
  set_unlocked, refresh_device_enrollment,
}

-- What creating a vault, or rotating its passphrase, draws.
pub record RecoveryDraws : Type 0 where
  pub master_key : Bytes
  pub vault_id : Text
  pub bundle_id : Text
  pub salt : Bytes
  pub nonce : Bytes
  pub now : ℤ

unfoldable pub bundle_of : RecoveryDraws → KdfParams → CipherEnvelope → RecoveryBundle
bundle_of draws params envelope = record {
  bundle_id = draws.bundle_id;
  params = params;
  wrapping_nonce = envelope.nonce;
  wrapped_master_key = envelope.ciphertext;
  created_at = draws.now;
  updated_at = draws.now;
}

unfoldable pub new_header : RecoveryDraws → VaultHeader
new_header draws = record {
  vault_id = draws.vault_id;
  schema_version = vault_schema_version;
  cipher = codes "xchacha20poly1305";
  recovery_kdf = recommended draws.salt;
  created_at = draws.now;
  updated_at = draws.now;
  last_logical_clock = 0;
}

-- The header in memory, if there is one, gets the new parameters.
unfoldable pub rotated_header : KdfParams → ℤ → VaultHeader → VaultHeader
rotated_header params now h = record h { recovery_kdf = params; updated_at = now }

unfoldable pub get_bundle : {D : Type 0} → Method D RecoveryBundle
get_bundle = do
  found ← sql load_recovery_bundle
  ok_or found (corrupt_vault (codes "missing recovery bundle"))

module _ {D : Type 0} (lib : Primitives) (secrets : DeviceSecretStore D) where
  unfoldable pub create_vault : Text → Text → RecoveryDraws → DeviceDraws → Method D (Unit {0})
  unfolding new_header bundle_of set_unlocked refresh_device_enrollment
  create_vault passphrase_text device_name draws device_draws = do
    existing ← gets (λ s. s.header)
    raise_if (is_some existing) vault_already_initialized
    raise_if (is_empty (trim passphrase_text)) empty_passphrase
    wrap_key ← lift (derive_wrap_key lib (recommended draws.salt) passphrase_text)
    sql (insert_header (new_header draws))
    envelope ← lift (
        encrypt lib wrap_key draws.master_key
          (recovery_aad lib draws.vault_id (recommended draws.salt)) draws.nonce)
    sql (insert_recovery_bundle (bundle_of draws (recommended draws.salt) envelope))
    modify (λ s. record s { header = some (new_header draws) })
    set_unlocked (record { bytes = draws.master_key }) passphrase
    refresh_device_enrollment lib secrets device_name device_draws

  unfoldable pub unlock_with_passphrase : Text → Text → DeviceDraws → Method D (Unit {0})
  unfolding get_header get_bundle set_unlocked refresh_device_enrollment
  unlock_with_passphrase passphrase_text device_name draws = do
    header ← get_header vault_not_initialized
    bundle ← get_bundle
    wrap_key ← lift (derive_wrap_key lib bundle.params passphrase_text)
    master_key ← lift (decrypt_recovery_master_key lib wrap_key header.vault_id bundle)
    key ← lift (from_slice master_key)
    set_unlocked key passphrase
    refresh_device_enrollment lib secrets device_name draws

  unfoldable pub rotate_passphrase : Text → Text → RecoveryDraws → Method D (Unit {0})
  unfolding get_header get_bundle bundle_of rotated_header
  rotate_passphrase old_passphrase new_passphrase draws = do
    raise_if (is_empty (trim new_passphrase)) empty_passphrase
    header ← get_header vault_not_initialized
    bundle ← get_bundle
    old_wrap_key ← lift (derive_wrap_key lib bundle.params old_passphrase)
    master_key ← lift (decrypt_recovery_master_key lib old_wrap_key header.vault_id bundle)
    new_wrap_key ← lift (derive_wrap_key lib (recommended draws.salt) new_passphrase)
    wrapped ← lift (
        encrypt lib new_wrap_key master_key
          (recovery_aad lib header.vault_id (recommended draws.salt)) draws.nonce)
    sql (insert_recovery_bundle (bundle_of draws (recommended draws.salt) wrapped))
    sql (update_header_after_rotation draws.now (recommended draws.salt))
    modify (λ s. record s {
      header = Option.map (rotated_header (recommended draws.salt) draws.now) s.header;
    })
