-- ===== src/Vault/Failure.antt =====
-- VaultError of crates/seance-vault/src/lib.rs and DeviceSecretError of
-- crates/seance-vault/src/device_store.rs. What other libraries say of their errors is left out.
use seance.Prelude.{ℕ, Text}

pub data DeviceSecretError : Type 0 where
  backend : Text → DeviceSecretError
  missing_secret unavailable_in_this_build : DeviceSecretError

pub data VaultError : Type 0 where
  database io serialization ssh_key : VaultError
  device_secret : DeviceSecretError → VaultError
  passphrase_derivation_failed invalid_kdf_config : Text → VaultError
  encryption_failed decryption_failed : VaultError
  vault_not_initialized vault_already_initialized vault_locked : VaultError
  invalid_key_length invalid_nonce_length : ℕ → ℕ → VaultError
  unsupported_schema_version : ℕ → VaultError
  corrupt_vault : Text → VaultError
  empty_passphrase empty_host_label empty_host_name empty_host_user : VaultError
  empty_credential_label empty_credential_secret : VaultError
  empty_private_key_label empty_private_key : VaultError
  empty_port_forward_label empty_port_forward_host_reference : VaultError
  empty_port_forward_listen_address empty_port_forward_target_address : VaultError
  invalid_port_forward_port : VaultError
  missing_credential_reference missing_private_key_reference missing_host_reference :
      Text → VaultError
  unsupported_private_key_algorithm : VaultError
  credential_in_use private_key_in_use host_in_use_by_port_forward : Text → Text → VaultError
  duplicate_port_forward_listen_endpoint : Text → Text → Text → ℕ → VaultError
  sync_bootstrap_required snapshot_requires_uninitialized_vault : VaultError
  vault_id_mismatch : Text → Text → VaultError
  delta_out_of_order : ℕ → ℕ → VaultError
