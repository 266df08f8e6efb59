-- ===== src/Vault/Tests.antt =====
-- Vaults on which crates/seance-vault/src/lib.rs is run. The cipher hides nothing, and the key of a
-- passphrase is 32 zeros.
pub mod Entries
use seance.Prelude.{
  ℕ, zero, suc, Bool, true, false, Option, none, some, List, [], ◌∷◌, Text, codes, trim, trim_start,
  trim_end, is_whitespace, is_empty, length, All, list_beq, nat_eq, list_eq, Result, ok, err, ◌≡◌,
  refl, sym, arith,
}
use seance.Prelude.Compare.{ℤ, pos}
use seance.Vault.Exec.{◌>>=◌, ◌>>◌}
use seance.Vault.Model.{Bytes, VaultHeader, RecoveryBundle}
use seance.Vault.Failure.{VaultError, database, corrupt_vault}
use seance.Vault.Storage.{Conn, first}
use seance.Vault.Crypto.{
  Primitives, SecretKey, recommended, derive_wrap_key, recovery_aad, decrypt_recovery_master_key,
  decrypt,
}
use seance.Vault.Crypto.Roundtrip.{IsCipher}
use seance.Vault.Session.{DeviceSecretStore, DeviceDraws, VaultStore, lock}
use seance.Vault.Items.{Libraries}
use seance.Vault.Sound.{IsSound}
use seance.Vault.Sound.Calls.{VaultCall, unlocks, rotates, locks, run_calls, run_calls-IsSound}
use seance.Vault.Passphrase.{
  RecoveryDraws, new_header, bundle_of, create_vault, unlock_with_passphrase, rotate_passphrase,
}
use seance.Vault.Passphrase.Unlock.{OpensWith, Opened}
use seance.Vault.Passphrase.Creation.{Creates, fresh_bundle, unlock_with_passphrase-create_vault}
use seance.Vault.Passphrase.Rotation.{Rotates, unlock_with_passphrase-rotate_passphrase}
use seance.Vault.Passphrase.Interrupted.{interrupted, rotate_passphrase-interrupted}

abbrev pub bytes_of : ℕ → ℕ → Bytes
bytes_of zero b = []
bytes_of (suc n) b = b ∷ bytes_of n b

abbrev pub plain : Primitives
plain = record {
  encrypt = λ key nonce plaintext aad. some plaintext;
  decrypt = λ key nonce ciphertext aad. some ciphertext;
  params_new = λ m t p. ok tt;
  hash_password = λ params text. ok (bytes_of 32 0);
  base64 = λ bytes. bytes;
}

pub plain-IsCipher : IsCipher plain
plain-IsCipher = record { opens = λ key nonce plaintext ciphertext aad e. sym e }

-- It answers with nothing, and counts what it is given.
abbrev keychain : DeviceSecretStore ℕ
keychain = record {
  get_secret = λ d account. (ok none, d);
  set_secret = λ d account secret. (ok tt, suc d);
}

abbrev pub empty : VaultStore ℕ
empty = record {
  vault_path = codes "vault.db";
  conn = record {
    vault_header = none;
    recovery_bundles = [];
    device_enrollments = [];
    records = [];
    local_state = [];
    faults = [];
  };
  header = none;
  device_store = 0;
  master_key = none;
  last_unlock_method = none;
}

abbrev draws : RecoveryDraws
draws = record {
  master_key = bytes_of 32 5;
  vault_id = codes "v";
  bundle_id = codes "b";
  salt = 7 ∷ [];
  nonce = bytes_of 24 1;
  now = pos 3;
}

abbrev device_draws : DeviceDraws
device_draws = record {
  device_id = codes "d";
  device_key = bytes_of 32 9;
  nonce = bytes_of 24 2;
  now = pos 4;
}

abbrev pub wrap_key : SecretKey
wrap_key = record { bytes = bytes_of 32 0 }

empty-Creates : Creates plain (codes "open") draws wrap_key (bytes_of 32 5) empty
unfolding derive_wrap_key trim is_whitespace
empty-Creates = record {
  quiet = refl;
  no_header = refl;
  no_stored_header = refl;
  not_blank = refl;
  derived = refl;
  sealed = refl;
  nonce_fits = refl;
  key_fits = refl;
}

unlock_with_passphrase-create_vault_example : Opened plain (codes "open") (bytes_of 32 5) (
    (create_vault plain keychain (codes "open") (codes "mac") draws device_draws
        >> lock
        >> unlock_with_passphrase plain keychain (codes "open") (codes "mac") device_draws)
      empty)
unlock_with_passphrase-create_vault_example =
    unlock_with_passphrase-create_vault plain keychain plain-IsCipher (codes "open") (codes "mac")
      draws device_draws device_draws wrap_key (bytes_of 32 5) empty empty-Creates

-- A vault that exists, and a bundle for it.
abbrev bundle : RecoveryBundle
bundle = record {
  bundle_id = codes "b";
  params = record { salt = 7 ∷ []; memory_kib = 131072; iterations = 4; parallelism = 4 };
  wrapping_nonce = bytes_of 24 1;
  wrapped_master_key = bytes_of 32 5;
  created_at = pos 3;
  updated_at = pos 3;
}

abbrev pub header : VaultHeader
header = record {
  vault_id = codes "v";
  schema_version = 1;
  cipher = codes "xchacha20poly1305";
  recovery_kdf = record { salt = 7 ∷ []; memory_kib = 131072; iterations = 4; parallelism = 4 };
  created_at = pos 3;
  updated_at = pos 3;
  last_logical_clock = 0;
}

abbrev pub existing : VaultStore ℕ
existing = record empty {
  conn = record empty.conn { vault_header = some header; recovery_bundles = bundle ∷ [] };
  header = some header;
}

existing-bundle : first existing.conn.recovery_bundles ≡ some bundle
unfolding first
existing-bundle = refl

existing-derived : derive_wrap_key plain bundle.params (codes "open") ≡ ok wrap_key
unfolding derive_wrap_key
existing-derived = refl

existing-opened : decrypt_recovery_master_key plain wrap_key (codes "v") bundle ≡ ok (bytes_of 32 5)
unfolding decrypt_recovery_master_key decrypt
existing-opened = refl

abbrev existing-OpensWith : OpensWith plain (codes "open") (bytes_of 32 5) existing
existing-OpensWith = record {
  quiet = refl;
  header = header;
  has_header = refl;
  bundle = bundle;
  has_bundle = existing-bundle;
  wrap_key = wrap_key;
  derived = existing-derived;
  opened = existing-opened;
  long_enough = refl;
}

existing-Rotates :
    Rotates plain (codes "v") (codes "new") draws wrap_key (bytes_of 32 5) (bytes_of 32 5)
unfolding derive_wrap_key trim is_whitespace
existing-Rotates = record { not_blank = refl; derived = refl; sealed = refl; nonce_fits = refl }

unlock_with_passphrase-rotate_passphrase_example : Opened plain (codes "new") (bytes_of 32 5) (
    (rotate_passphrase plain keychain (codes "open") (codes "new") draws
        >> lock
        >> unlock_with_passphrase plain keychain (codes "new") (codes "mac") device_draws)
      existing)
unlock_with_passphrase-rotate_passphrase_example =
    unlock_with_passphrase-rotate_passphrase plain keychain plain-IsCipher (codes "open")
      (codes "new") (codes "mac") draws device_draws wrap_key (bytes_of 32 5) (bytes_of 32 5)
      existing existing-OpensWith existing-Rotates

rotate_passphrase-interrupted_example :
    let r =
      rotate_passphrase plain keychain (codes "open") (codes "new") draws (interrupted existing) in
    (r.0 ≡ err database)
    × ((text name : Text) (later : DeviceDraws)
        → (unlock_with_passphrase plain keychain text name later r.1).0
          ≡ err (corrupt_vault (codes "missing recovery bundle")))
rotate_passphrase-interrupted_example =
    rotate_passphrase-interrupted plain keychain (codes "open") (codes "new") draws wrap_key
      (bytes_of 32 5) (bytes_of 32 5) existing existing-OpensWith existing-Rotates

-- Nothing of serde or ssh_key is asked for.
abbrev libraries : Libraries
libraries = record {
  primitives = plain;
  hosts = record { to_vec = λ h. none; from_vec = λ bytes. none };
  credentials = record { to_vec = λ c. none; from_vec = λ bytes. none };
  keys = record { to_vec = λ k. none; from_vec = λ bytes. none };
  port_forwards = record { to_vec = λ p. none; from_vec = λ bytes. none };
  from_openssh = λ text. none;
}

-- SQLite refuses the insertion of the new bundle.
abbrev calls : List VaultCall
calls =
    unlocks (codes "open") (codes "mac") device_draws
    ∷ rotates (codes "open") (codes "new") draws
    ∷ locks
    ∷ []

run_calls-IsSound_example : IsSound (run_calls libraries keychain (interrupted existing) calls)
run_calls-IsSound_example =
    run_calls-IsSound libraries keychain (interrupted existing) calls (record {
      tables = record { keyed = tt; rows = tt; bundles = omega arith };
      by_method = refl;
    })
