-- ===== src/Vault/Sound/Calls.antt =====
-- The calls of VaultStore in crates/seance-vault/src/lib.rs, one after the other, with whatever
-- arguments, draws and answers of the keychain, on a database that may refuse any statement.
use seance.Prelude.{Option, List, [], ◌∷◌, Text}
use seance.Prelude.Compare.{ℤ}
use seance.Vault.Model.{VaultSnapshot, VaultDelta, SyncCursor}
use seance.Vault.Session.{DeviceSecretStore, VaultStore, DeviceDraws, status, lock}
use seance.Vault.Passphrase.{RecoveryDraws, create_vault, unlock_with_passphrase, rotate_passphrase}
use seance.Vault.Device.{try_unlock_with_device}
use seance.Vault.Profiles.{
  VaultHostProfile, VaultPortForwardProfile, VaultPasswordCredential, VaultPrivateKey,
  ImportKeyRequest,
}
use seance.Vault.Records.{WriteDraws}
use seance.Vault.Items.{
  Libraries, list_host_profiles, list_host_auth_summaries, list_password_credentials,
  list_private_keys, list_port_forwards, load_host_profile, load_password_credential,
  load_private_key, load_port_forward,
}
use seance.Vault.Writes.{
  GeneratedKey, GenerateKeyRequest, store_host_profile, store_password_credential,
  store_private_key, store_port_forward, delete_host_profile, delete_password_credential,
  delete_private_key, delete_port_forward, generate_private_key, import_private_key,
}
use seance.Vault.Sync.{export_snapshot, export_delta, apply_snapshot, apply_delta}
use seance.Vault.Sound.{IsSound}
use seance.Vault.Sound.Unlocking.{
  lock-Sound, status-Sound, create_vault-Sound, unlock_with_passphrase-Sound,
  rotate_passphrase-Sound, try_unlock_with_device-Sound,
}
use seance.Vault.Sound.Contents.{
  delete_record-Sound, load_record_payload-Sound, list_as-Sound, store_host_profile-Sound,
  store_password_credential-Sound, store_private_key-Sound, store_port_forward-Sound,
  delete_host_profile-Sound, delete_password_credential-Sound, delete_private_key-Sound,
  generate_private_key-Sound, import_private_key-Sound,
}
use seance.Vault.Sound.Exchange.{
  export_snapshot-Sound, export_delta-Sound, apply_snapshot-Sound, apply_delta-Sound,
}

pub data VaultCall : Type 0 where
  asks_status locks exports_snapshot : VaultCall
  creates : Text → Text → RecoveryDraws → DeviceDraws → VaultCall
  unlocks : Text → Text → DeviceDraws → VaultCall
  unlocks_by_device : ℤ → VaultCall
  rotates : Text → Text → RecoveryDraws → VaultCall
  stores_host : VaultHostProfile → WriteDraws → VaultCall
  stores_credential : VaultPasswordCredential → WriteDraws → VaultCall
  stores_key : VaultPrivateKey → WriteDraws → VaultCall
  stores_port_forward : VaultPortForwardProfile → WriteDraws → VaultCall
  generates_key : GenerateKeyRequest → Option GeneratedKey → WriteDraws → VaultCall
  imports_key : ImportKeyRequest → WriteDraws → VaultCall
  deletes_host deletes_credential deletes_key deletes_port_forward : Text → ℤ → ℤ → VaultCall
  loads_host loads_credential loads_key loads_port_forward : Text → VaultCall
  lists_hosts lists_auth lists_credentials lists_keys lists_port_forwards : VaultCall
  exports_delta : SyncCursor → VaultCall
  applies_snapshot : VaultSnapshot → VaultCall
  applies_delta : VaultDelta → ℤ → ℤ → VaultCall

module _ {D : Type 0} (lib : Libraries) (secrets : DeviceSecretStore D) where
  -- The vault after a call, whether it returned or failed.
  unfoldable pub after_call : VaultStore D → VaultCall → VaultStore D
  after_call s asks_status = (status s).1
  after_call s locks = (lock s).1
  after_call s exports_snapshot = (export_snapshot s).1
  after_call s (creates text name draws device_draws) =
      (create_vault lib.primitives secrets text name draws device_draws s).1
  after_call s (unlocks text name draws) =
      (unlock_with_passphrase lib.primitives secrets text name draws s).1
  after_call s (unlocks_by_device now) = (try_unlock_with_device lib.primitives secrets now s).1
  after_call s (rotates old_text new_text draws) =
      (rotate_passphrase lib.primitives secrets old_text new_text draws s).1
  after_call s (stores_host host draws) = (store_host_profile lib host draws s).1
  after_call s (stores_credential credential draws) =
      (store_password_credential lib credential draws s).1
  after_call s (stores_key key draws) = (store_private_key lib key draws s).1
  after_call s (stores_port_forward p draws) = (store_port_forward lib p draws s).1
  after_call s (generates_key request made draws) =
      (generate_private_key lib request made draws s).1
  after_call s (imports_key request draws) = (import_private_key lib request draws s).1
  after_call s (deletes_host id bumped_at now) = (delete_host_profile lib id bumped_at now s).1
  after_call s (deletes_credential id bumped_at now) =
      (delete_password_credential lib id bumped_at now s).1
  after_call s (deletes_key id bumped_at now) = (delete_private_key lib id bumped_at now s).1
  after_call s (deletes_port_forward id bumped_at now) =
      (delete_port_forward lib id bumped_at now s).1
  after_call s (loads_host id) = (load_host_profile lib id s).1
  after_call s (loads_credential id) = (load_password_credential lib id s).1
  after_call s (loads_key id) = (load_private_key lib id s).1
  after_call s (loads_port_forward id) = (load_port_forward lib id s).1
  after_call s lists_hosts = (list_host_profiles lib s).1
  after_call s lists_auth = (list_host_auth_summaries lib s).1
  after_call s lists_credentials = (list_password_credentials lib s).1
  after_call s lists_keys = (list_private_keys lib s).1
  after_call s lists_port_forwards = (list_port_forwards lib s).1
  after_call s (exports_delta since) = (export_delta since s).1
  after_call s (applies_snapshot snapshot) = (apply_snapshot snapshot s).1
  after_call s (applies_delta delta written_at now) = (apply_delta delta written_at now s).1

  unfoldable pub run_calls : VaultStore D → List VaultCall → VaultStore D
  unfolding after_call
  run_calls s [] = s
  run_calls s (call ∷ calls) = run_calls (after_call s call) calls

  after_call-IsSound :
      (s : VaultStore D) (call : VaultCall) → IsSound s → IsSound (after_call s call)
  unfolding after_call delete_port_forward load_host_profile load_password_credential
      load_private_key load_port_forward list_host_profiles list_host_auth_summaries
      list_password_credentials list_private_keys list_port_forwards
  after_call-IsSound s asks_status h = status-Sound.at s h
  after_call-IsSound s locks h = lock-Sound.at s h
  after_call-IsSound s exports_snapshot h = export_snapshot-Sound.at s h
  after_call-IsSound s (creates text name draws device_draws) h =
      (create_vault-Sound lib.primitives secrets text name draws device_draws).at s h
  after_call-IsSound s (unlocks text name draws) h =
      (unlock_with_passphrase-Sound lib.primitives secrets text name draws).at s h
  after_call-IsSound s (unlocks_by_device now) h =
      (try_unlock_with_device-Sound lib.primitives secrets now).at s h
  after_call-IsSound s (rotates old_text new_text draws) h =
      (rotate_passphrase-Sound lib.primitives secrets old_text new_text draws).at s h
  after_call-IsSound s (stores_host host draws) h = (store_host_profile-Sound lib host draws).at s h
  after_call-IsSound s (stores_credential credential draws) h =
      (store_password_credential-Sound lib credential draws).at s h
  after_call-IsSound s (stores_key key draws) h = (store_private_key-Sound lib key draws).at s h
  after_call-IsSound s (stores_port_forward p draws) h =
      (store_port_forward-Sound lib p draws).at s h
  after_call-IsSound s (generates_key request made draws) h =
      (generate_private_key-Sound lib request made draws).at s h
  after_call-IsSound s (imports_key request draws) h =
      (import_private_key-Sound lib request draws).at s h
  after_call-IsSound s (deletes_host id bumped_at now) h =
      (delete_host_profile-Sound lib id bumped_at now).at s h
  after_call-IsSound s (deletes_credential id bumped_at now) h =
      (delete_password_credential-Sound lib id bumped_at now).at s h
  after_call-IsSound s (deletes_key id bumped_at now) h =
      (delete_private_key-Sound lib id bumped_at now).at s h
  after_call-IsSound s (deletes_port_forward id bumped_at now) h =
      (delete_record-Sound id _ bumped_at now).at s h
  after_call-IsSound s (loads_host id) h = (load_record_payload-Sound lib.primitives _ id _).at s h
  after_call-IsSound s (loads_credential id) h =
      (load_record_payload-Sound lib.primitives _ id _).at s h
  after_call-IsSound s (loads_key id) h = (load_record_payload-Sound lib.primitives _ id _).at s h
  after_call-IsSound s (loads_port_forward id) h =
      (load_record_payload-Sound lib.primitives _ id _).at s h
  after_call-IsSound s lists_hosts h = (list_as-Sound lib _ _ _).at s h
  after_call-IsSound s lists_auth h = (list_as-Sound lib _ _ _).at s h
  after_call-IsSound s lists_credentials h = (list_as-Sound lib _ _ _).at s h
  after_call-IsSound s lists_keys h = (list_as-Sound lib _ _ _).at s h
  after_call-IsSound s lists_port_forwards h = (list_as-Sound lib _ _ _).at s h
  after_call-IsSound s (exports_delta since) h = (export_delta-Sound since).at s h
  after_call-IsSound s (applies_snapshot snapshot) h = (apply_snapshot-Sound snapshot).at s h
  after_call-IsSound s (applies_delta delta written_at now) h =
      (apply_delta-Sound delta written_at now).at s h

  -- Any calls on a vault, in any order, that return or fail, while SQLite refuses whichever statements
  -- it likes: if the vault was sound before, it is afterwards. No id stands twice in the table of
  -- records, clocks fit an i64, a record that is marked as synced was synced at its own clock, there
  -- is at most one recovery bundle, and a key is held exactly when an unlock method is.
  pub run_calls-IsSound :
      (s : VaultStore D) (calls : List VaultCall) → IsSound s → IsSound (run_calls s calls)
  unfolding run_calls
  run_calls-IsSound s [] h = h
  run_calls-IsSound s (call ∷ calls) h =
      run_calls-IsSound (after_call s call) calls (after_call-IsSound s call h)
