-- ===== src/Vault/Passphrase/Unlock.antt =====
-- A vault that a passphrase opens, in crates/seance-vault/src/lib.rs.
use seance.Prelude.{Option, none, some, Text, codes, length, Result, ok, ◌≡◌, refl, ap, ◌∙◌}
use seance.Vault.Exec.{pure, lift, modify, ok_or, ◌>>=◌, ◌>>◌, bind_ok}
use seance.Vault.Model.{Bytes, VaultHeader, RecoveryBundle, UnlockMethod, passphrase}
use seance.Vault.Failure.{VaultError, vault_not_initialized, corrupt_vault}
use seance.Vault.Storage.{first, load_recovery_bundle}
use seance.Vault.Storage.Quiet.{Quiet, query-Quiet}
use seance.Vault.Crypto.{
  Primitives, SecretKey, key_len, derive_wrap_key, decrypt_recovery_master_key,
}
use seance.Vault.Crypto.Roundtrip.{from_slice_fits}
use seance.Vault.Session.{
  VaultStore, Method, DeviceSecretStore, DeviceDraws, lock, set_unlocked, refresh_device_enrollment,
}
use seance.Vault.Session.Ready.{sql_lem, get_header-some}
use seance.Vault.Session.Enrollment.{Kept, refresh_device_enrollment_lem}
use seance.Vault.Passphrase.{get_bundle, unlock_with_passphrase}

-- The recovery bundle in the database gives the key to who has the passphrase.
pub record OpensWith {D : Type 0} (lib : Primitives) (text : Text) (key : Bytes) (s : VaultStore D)
    : Type 0 where
  pub quiet : Quiet s.conn
  pub header : VaultHeader
  pub has_header : s.header ≡ some header
  pub bundle : RecoveryBundle
  pub has_bundle : first s.conn.recovery_bundles ≡ some bundle
  pub wrap_key : SecretKey
  pub derived : derive_wrap_key lib bundle.params text ≡ ok wrap_key
  pub opened : decrypt_recovery_master_key lib wrap_key header.vault_id bundle ≡ ok key
  pub long_enough : length key ≡ key_len

abbrev pub unlocked_with : {D : Type 0} → Bytes → VaultStore D → VaultStore D
unlocked_with key s = record s {
  master_key = some (record { bytes = key });
  last_unlock_method = some passphrase;
}

pub get_bundle-some :
    {D : Type 0} (s : VaultStore D) (bundle : RecoveryBundle)
    → Quiet s.conn
    → first s.conn.recovery_bundles ≡ some bundle
    → get_bundle s ≡ (ok bundle, s)
unfolding get_bundle load_recovery_bundle ok_or pure
get_bundle-some s bundle q e =
    bind_ok _ _ s s (first s.conn.recovery_bundles) (sql_lem _ s _ s.conn (query-Quiet _ s.conn q))
    ∙ ap (λ o. ok_or {E = VaultError} o (corrupt_vault (codes "missing recovery bundle")) s) e

-- A call that returned and left the vault unlocked with a key.
pub record Opened {D : Type 0} (lib : Primitives) (text : Text) (key : Bytes)
    (r : Result VaultError (Unit {0}) × VaultStore D) : Type 0 where
  pub returned : r.0 ≡ ok tt
  pub unlocked : r.1.master_key ≡ some (record { bytes = key })
  pub by : r.1.last_unlock_method ≡ some passphrase
  pub still : OpensWith lib text key r.1

-- The recovery bundle opens whether the vault is locked or not.
pub keys-OpensWith :
    {D : Type 0} (lib : Primitives) (text : Text) (key : Bytes) (s : VaultStore D)
    (master_key : Option SecretKey) (how : Option UnlockMethod)
    → OpensWith lib text key s
    → OpensWith lib text key (record s { master_key = master_key; last_unlock_method = how })
keys-OpensWith lib text key s master_key how o = record {
  quiet = o.quiet;
  header = o.header;
  has_header = o.has_header;
  bundle = o.bundle;
  has_bundle = o.has_bundle;
  wrap_key = o.wrap_key;
  derived = o.derived;
  opened = o.opened;
  long_enough = o.long_enough;
}

module _ {D : Type 0} (lib : Primitives) (secrets : DeviceSecretStore D) where
  -- The call up to the enrollment of the device.
  unlock_with_passphrase_step :
      (text name : Text) (draws : DeviceDraws) (key : Bytes) (s : VaultStore D)
      → OpensWith lib text key s
      → unlock_with_passphrase lib secrets text name draws s
        ≡ refresh_device_enrollment lib secrets name draws (unlocked_with key s)
  unfolding unlock_with_passphrase set_unlocked lift modify
  unlock_with_passphrase_step text name draws key s o =
      bind_ok _ _ s s o.header (get_header-some vault_not_initialized s o.header o.has_header)
      ∙ bind_ok _ _ s s o.bundle (get_bundle-some s o.bundle o.quiet o.has_bundle)
      ∙ bind_ok _ _ s s o.wrap_key (ap (λ r. (r, s)) o.derived)
      ∙ bind_ok _ _ s s key (ap (λ r. (r, s)) o.opened)
      ∙ bind_ok _ _ s s (record { bytes = key })
          (ap (λ r. (r, s)) (from_slice_fits key o.long_enough))
      ∙ bind_ok _ _ s (unlocked_with key s) tt refl

  kept-OpensWith :
      (text : Text) (key : Bytes) (s t : VaultStore D)
      → OpensWith lib text key t
      → Kept t s
      → OpensWith lib text key s
  kept-OpensWith text key s t o k = record {
    quiet = k.quiet;
    header = o.header;
    has_header = k.header ∙ o.has_header;
    bundle = o.bundle;
    has_bundle = ap first k.bundles ∙ o.has_bundle;
    wrap_key = o.wrap_key;
    derived = o.derived;
    opened = o.opened;
    long_enough = o.long_enough;
  }

  -- The enrollment of the device, with which creating and unlocking end.
  pub refreshed-Opened :
      (text name : Text) (draws : DeviceDraws) (key : Bytes) (s : VaultStore D)
      → OpensWith lib text key (unlocked_with key s)
      → Opened lib text key (refresh_device_enrollment lib secrets name draws (unlocked_with key s))
  refreshed-Opened text name draws key s o =
      let done =
        refresh_device_enrollment_lem lib secrets name draws (unlocked_with key s) o.quiet in
      record {
        returned = done.0;
        unlocked = done.1.master_key;
        by = done.1.last_unlock_method;
        still = kept-OpensWith text key _ (unlocked_with key s) o done.1;
      }

  -- Where the recovery bundle opens with a passphrase, unlocking with it returns whatever the device
  -- store answers, the vault is unlocked with the bundle's key, and the bundle opens as before.
  pub unlock_with_passphrase_lem :
      (text name : Text) (draws : DeviceDraws) (key : Bytes) (s : VaultStore D)
      → OpensWith lib text key s
      → Opened lib text key (unlock_with_passphrase lib secrets text name draws s)
  unlock_with_passphrase_lem text name draws key s o =
      rw (unlock_with_passphrase_step text name draws key s o)
        (refreshed-Opened text name draws key s (keys-OpensWith lib text key s _ _ o))

module _ {D : Type 0} where
  -- Locking forgets the key alone.
  abbrev pub locked : VaultStore D → VaultStore D
  locked s = record s { master_key = none; last_unlock_method = none }

  pub locked-OpensWith :
      (lib : Primitives) (text : Text) (key : Bytes) (s : VaultStore D)
      → OpensWith lib text key s
      → OpensWith lib text key (locked s)
  locked-OpensWith lib text key s o = keys-OpensWith lib text key s none none o

  -- A call that returned, then a lock, then another call.
  pub then_lock_lem :
      (m n : Method D (Unit {0})) (s : VaultStore D)
      → (m s).0 ≡ ok tt
      → (m >> lock >> n) s ≡ n (locked (m s).1)
  unfolding lock ◌>>=◌
  then_lock_lem m n s e = rw e refl
