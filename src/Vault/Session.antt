-- ===== src/Vault/Session.antt =====
-- VaultStore of crates/seance-vault/src/lib.rs: opening a vault, its status, locking it and enrolling
-- the device. The store of device secrets (DeviceSecretStore) is an interface. What a call draws at
-- random, and the clock that it reads, are given with it.
pub mod Ready
pub mod Enrollment
use mathlib.Core.Option
use seance.Prelude.{
  Bool, true, false, ◌&&◌, not, Option, none, some, List, [], ◌∷◌, if◌then◌else◌, is_empty, is_some,
  Text, codes, trim, Result, ok, err,
}
use seance.Prelude.Compare.{ℤ}
use seance.Vault.Exec.{Exec, pure, raise, lift, gets, ok_or, modify, raise_if, ◌>>=◌, ◌>>◌, either}
use seance.Vault.Model.{
  Bytes, KdfParams, VaultHeader, RecoveryBundle, DeviceEnrollment, UnlockMethod, device, passphrase,
  VaultStatus, vault_schema_version,
}
use seance.Vault.Failure.{
  DeviceSecretError, backend, missing_secret, unavailable_in_this_build, VaultError, database, io,
  device_secret, vault_not_initialized, vault_already_initialized, vault_locked, corrupt_vault,
  empty_passphrase,
}
use seance.Vault.Storage.{
  Conn, Sql, statement, load_header, insert_header, verify_header_integrity,
  update_header_after_rotation, insert_recovery_bundle, load_recovery_bundle,
  upsert_device_enrollment, load_device_enrollment, update_device_last_used, set_local_state,
  get_local_state, delete_local_state,
}
use seance.Vault.Crypto.{
  Primitives, SecretKey, CipherEnvelope, from_slice, encrypt, decrypt, recommended, derive_wrap_key,
  recovery_aad, decrypt_recovery_master_key, device_wrap_aad, device_account_name,
}

abbrev pub device_state_key : Text
device_state_key = codes "local_device_id"

abbrev pub device_unlock_message_key : Text
device_unlock_message_key = codes "device_unlock_message"

abbrev pub device_unlock_build_message : Text
device_unlock_build_message =
    codes
      "Touch ID device unlock is unavailable in this build. Launch a signed Seance.app bundle to enroll and use Touch ID."

abbrev pub device_unlock_enrollment_failed_message : Text
device_unlock_enrollment_failed_message =
    codes
      "Vault unlocked, but Touch ID enrollment failed. Launch a signed Seance.app bundle and unlock again with your passphrase to re-enroll this device."

abbrev pub device_unlock_reenroll_message : Text
device_unlock_reenroll_message =
    codes
      "Touch ID device unlock needs to be re-enrolled. Unlock the vault with your passphrase once to repair it."

-- DeviceSecretStore, with the state behind it.
pub record DeviceSecretStore (D : Type 0) : Type 0 where
  pub get_secret : D → Text → Result DeviceSecretError (Option Bytes) × D
  pub set_secret : D → Text → Bytes → Result DeviceSecretError (Unit {0}) × D

pub record VaultStore (D : Type 0) : Type 0 where
  pub vault_path : Text
  pub conn : Conn
  pub header : Option VaultHeader
  pub device_store : D
  pub master_key : Option SecretKey
  pub last_unlock_method : Option UnlockMethod

-- A method of a vault, with the device store's state.
abbrev pub Method : Type 0 → Type 0 → Type 0
Method D A = Exec VaultError (VaultStore D) A

-- What enrolling the device draws.
pub record DeviceDraws : Type 0 where
  pub device_id : Text
  pub device_key : Bytes
  pub nonce : Bytes
  pub now : ℤ

in_force : Option DeviceEnrollment → Bool
in_force none = false
in_force (some enrollment) = not (is_some enrollment.revoked_at)

verified : Option VaultHeader → Result VaultError (Unit {0})
unfolding verify_header_integrity
verified none = ok tt
verified (some header) = verify_header_integrity header

load_verified : Sql (Option VaultHeader)
unfolding verified
load_verified = do statement; header ← load_header; lift (verified header); pure header

module _ {D : Type 0} where
  -- A statement on the connection of the vault.
  unfoldable pub sql : {A : Type 0} → Sql A → Method D A
  sql m s = let (r, c) = m s.conn in (r, record s { conn = c })

  -- `let _ =`, and `.ok().flatten()`: an error is dropped.
  unfoldable pub quietly : Method D (Unit {0}) → Method D (Unit {0})
  quietly m = either m pure (λ e. pure tt)

  unfoldable pub or_none : {A : Type 0} → Method D (Option A) → Method D (Option A)
  or_none m = either m pure (λ e. pure none)

  opened :
      Text → D → Result VaultError (Option VaultHeader) × Conn → Result VaultError (VaultStore D)
  opened path device_store (err e, conn) = err e
  opened path device_store (ok header, conn) = ok (record {
    vault_path = path;
    conn = conn;
    header = header;
    device_store = device_store;
    master_key = none;
    last_unlock_method = none;
  })

  -- `created` is whether the folder could be made, `connection` what opening the file gives.
  unfoldable pub open_with_device_store :
      Text → Bool → Option Conn → D → Result VaultError (VaultStore D)
  unfolding opened load_verified
  open_with_device_store path false connection device_store = err io
  open_with_device_store path true none device_store = err database
  open_with_device_store path true (some conn) device_store =
      opened path device_store (load_verified conn)

  unfoldable pub persist_device_unlock_message : Option Text → Method D (Unit {0})
  unfolding quietly
  persist_device_unlock_message none = quietly (sql (delete_local_state device_unlock_message_key))
  persist_device_unlock_message (some message) =
      quietly (sql (set_local_state device_unlock_message_key message))

  unfoldable pub load_device_id : Option VaultHeader → Method D (Option Text)
  unfolding or_none
  load_device_id none = pure none
  load_device_id (some header) = or_none (sql (get_local_state device_state_key))

  unfoldable pub load_enrollment : Option Text → Method D (Option DeviceEnrollment)
  unfolding or_none
  load_enrollment none = pure none
  load_enrollment (some device_id) = or_none (sql (load_device_enrollment device_id))

  unfoldable pub status : Method D VaultStatus
  unfolding load_device_id load_enrollment in_force or_none
  status = do
    message ← or_none (sql (get_local_state device_unlock_message_key))
    header ← gets (λ s. s.header)
    device_id ← load_device_id header
    available ←
        if is_some header && not (is_some message)
        then (do enrollment ← load_enrollment device_id; pure (in_force enrollment))
        else pure false
    s ← gets (λ s. s)
    pure (record {
      initialized = is_some header;
      unlocked = is_some s.master_key;
      vault_path = s.vault_path;
      device_unlock_available = available;
      device_unlock_message = message;
    })

  unfoldable pub lock : Method D (Unit {0})
  lock = modify (λ s. record s { master_key = none; last_unlock_method = none })

  unfoldable pub get_header : VaultError → Method D VaultHeader
  get_header e = do found ← gets (λ s. s.header); ok_or found e

  unfoldable pub get_master_key : Method D SecretKey
  get_master_key = do found ← gets (λ s. s.master_key); ok_or found vault_locked

  unfoldable pub set_unlocked : SecretKey → UnlockMethod → Method D (Unit {0})
  set_unlocked key how =
      modify (λ s. record s { master_key = some key; last_unlock_method = some how })

module _ {D : Type 0} (lib : Primitives) (secrets : DeviceSecretStore D) where
  secret_result : Result DeviceSecretError (Unit {0}) → Result VaultError (Unit {0})
  secret_result (ok done) = ok tt
  secret_result (err e) = err (device_secret e)

  unfoldable pub set_secret : Text → Bytes → Method D (Unit {0})
  unfolding secret_result
  set_secret account bytes s =
      let (r, d) = secrets.set_secret s.device_store account bytes in
      (secret_result r, record s { device_store = d })

  unfoldable pub own_device_id : Option Text → Text → Method D Text
  own_device_id (some existing) created = pure existing
  own_device_id none created = do sql (set_local_state device_state_key created); pure created

  unfoldable pub ensure_device_enrollment : Text → DeviceDraws → Method D (Unit {0})
  unfolding get_header get_master_key own_device_id set_secret
  ensure_device_enrollment device_name draws = do
    header ← get_header vault_not_initialized
    master_key ← get_master_key
    found ← sql (get_local_state device_state_key)
    device_id ← own_device_id found draws.device_id
    set_secret (device_account_name header.vault_id device_id) draws.device_key
    envelope ← lift (
        encrypt lib (record { bytes = draws.device_key }) master_key.bytes
          (device_wrap_aad header.vault_id device_id) draws.nonce)
    sql (
        upsert_device_enrollment (record {
          device_id = device_id;
          device_name = device_name;
          wrapping_nonce = envelope.nonce;
          wrapped_master_key = envelope.ciphertext;
          created_at = draws.now;
          last_used_at = draws.now;
          revoked_at = none;
        }))

  -- A vault stays unlocked where its device cannot be enrolled.
  unfoldable pub refresh_device_enrollment : Text → DeviceDraws → Method D (Unit {0})
  unfolding ensure_device_enrollment persist_device_unlock_message
  refresh_device_enrollment device_name draws =
      either (ensure_device_enrollment device_name draws)
        (λ done. persist_device_unlock_message none)
        (λ e. persist_device_unlock_message (some device_unlock_enrollment_failed_message))
