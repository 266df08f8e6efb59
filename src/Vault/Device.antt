-- ===== src/Vault/Device.antt =====
-- Unlocking a vault with the secret of the device, in crates/seance-vault/src/lib.rs.
use seance.Prelude.{
  Bool, true, false, Option, none, some, if◌then◌else◌, is_some, Text, Result, ok, err,
}
use seance.Prelude.Compare.{ℤ}
use seance.Vault.Exec.{pure, raise, ◌>>=◌, ◌>>◌}
use seance.Vault.Model.{Bytes, VaultHeader, DeviceEnrollment, device}
use seance.Vault.Failure.{
  DeviceSecretError, backend, missing_secret, unavailable_in_this_build, VaultError, device_secret,
  vault_not_initialized,
}
use seance.Vault.Storage.{load_device_enrollment, update_device_last_used, get_local_state}
use seance.Vault.Crypto.{Primitives, from_slice, decrypt, device_wrap_aad, device_account_name}
use seance.Vault.Session.{
  DeviceSecretStore, Method, device_state_key, device_unlock_build_message,
  device_unlock_reenroll_message, sql, persist_device_unlock_message, get_header, set_unlocked,
}

module _ {D : Type 0} (lib : Primitives) (secrets : DeviceSecretStore D) where
  -- `return Ok(false)` with a message for the next start.
  unfoldable pub refused : Text → Method D Bool
  unfolding persist_device_unlock_message
  refused message = do persist_device_unlock_message (some message); pure false

  -- `let Ok(x) = ... else`
  unfoldable pub or_reenroll :
      {A : Type 0} → Result VaultError A → (A → Method D Bool) → Method D Bool
  unfolding refused
  or_reenroll (ok a) next = next a
  or_reenroll (err e) next = refused device_unlock_reenroll_message

  unfoldable pub unlock_with_secret : VaultHeader → DeviceEnrollment → Bytes → ℤ → Method D Bool
  unfolding or_reenroll set_unlocked persist_device_unlock_message
  unlock_with_secret header enrollment secret now = or_reenroll (from_slice secret) λ device_key.
      or_reenroll
        (decrypt lib device_key enrollment.wrapping_nonce enrollment.wrapped_master_key
          (device_wrap_aad header.vault_id enrollment.device_id))
        λ plaintext. or_reenroll (from_slice plaintext) λ master_key. do
          set_unlocked master_key device
          persist_device_unlock_message none
          sql (update_device_last_used enrollment.device_id now)
          pure true

  -- The arms of the match on the secret.
  unfoldable pub unlock_by :
      VaultHeader → DeviceEnrollment → ℤ → Result DeviceSecretError (Option Bytes) → Method D Bool
  unfolding refused unlock_with_secret
  unlock_by header enrollment now (ok (some secret)) =
      unlock_with_secret header enrollment secret now
  unlock_by header enrollment now (ok none) = pure false
  unlock_by header enrollment now (err unavailable_in_this_build) =
      refused device_unlock_build_message
  unlock_by header enrollment now (err (backend message)) = raise (device_secret (backend message))
  unlock_by header enrollment now (err missing_secret) = raise (device_secret missing_secret)

  unfoldable pub ask_secret : Text → Method D (Result DeviceSecretError (Option Bytes))
  ask_secret account s =
      let (r, d) = secrets.get_secret s.device_store account in
      (ok r, record s { device_store = d })

  unfoldable pub unlock_enrolled : VaultHeader → Text → ℤ → Option DeviceEnrollment → Method D Bool
  unfolding unlock_by ask_secret
  unlock_enrolled header device_id now none = pure false
  unlock_enrolled header device_id now (some enrollment) =
      if is_some enrollment.revoked_at then pure false else (do
        secret ← ask_secret (device_account_name header.vault_id device_id)
        unlock_by header (record enrollment { device_id = device_id }) now secret)

  unfoldable pub unlock_on : VaultHeader → ℤ → Option Text → Method D Bool
  unfolding unlock_enrolled
  unlock_on header now none = pure false
  unlock_on header now (some device_id) = do
    enrollment ← sql (load_device_enrollment device_id)
    unlock_enrolled header device_id now enrollment

  unfoldable pub try_unlock_with_device : ℤ → Method D Bool
  unfolding get_header unlock_on
  try_unlock_with_device now = do
    header ← get_header vault_not_initialized
    device_id ← sql (get_local_state device_state_key)
    unlock_on header now device_id
