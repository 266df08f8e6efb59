-- ===== src/Vault/Passphrase/Creation.antt =====
-- Creating a vault in crates/seance-vault/src/lib.rs, and opening it with the same passphrase.
use seance.Prelude.{
  false, none, some, [], ◌∷◌, Text, length, trim, is_empty, is_some, ok, ◌≡◌, refl, ap, ◌∙◌, sym,
  subst, arith,
}
use seance.Vault.Exec.{gets, lift, modify, ◌>>◌, bind_ok}
use seance.Vault.Model.{Bytes, RecoveryBundle}
use seance.Vault.Storage.{first}
use seance.Vault.Storage.Quiet.{Quiet, insert_header-Quiet, insert_recovery_bundle-Quiet}
use seance.Vault.Crypto.{
  Primitives, SecretKey, CipherEnvelope, key_len, nonce_len, recommended, derive_wrap_key,
  recovery_aad,
}
use seance.Vault.Crypto.Roundtrip.{IsCipher, encrypt_some, decrypt_recovery-encrypt}
use seance.Vault.Session.{
  VaultStore, DeviceSecretStore, DeviceDraws, lock, set_unlocked, refresh_device_enrollment,
}
use seance.Vault.Session.Ready.{sql_lem, raise_if-false}
use seance.Vault.Passphrase.{
  RecoveryDraws, bundle_of, new_header, create_vault, unlock_with_passphrase,
}
use seance.Vault.Passphrase.Unlock.{
  OpensWith, unlocked_with, Opened, refreshed-Opened, locked-OpensWith, then_lock_lem,
  unlock_with_passphrase_lem,
}

-- What creating a vault needs: there is none yet, the passphrase is not blank, its key can be
-- derived, and the cipher seals the new master key.
pub record Creates {D : Type 0} (lib : Primitives) (text : Text) (draws : RecoveryDraws)
    (wrap_key : SecretKey) (ciphertext : Bytes) (s : VaultStore D) : Type 0 where
  pub quiet : Quiet s.conn
  pub no_header : s.header ≡ none
  pub no_stored_header : s.conn.vault_header ≡ none
  pub not_blank : is_empty (trim text) ≡ false
  pub derived : derive_wrap_key lib (recommended draws.salt) text ≡ ok wrap_key
  pub sealed :
      lib.encrypt wrap_key.bytes draws.nonce draws.master_key
        (recovery_aad lib draws.vault_id (recommended draws.salt))
      ≡ some ciphertext
  pub nonce_fits : length draws.nonce ≡ nonce_len
  pub key_fits : length draws.master_key ≡ key_len

abbrev pub envelope_of : RecoveryDraws → Bytes → CipherEnvelope
envelope_of draws ciphertext = record { nonce = draws.nonce; ciphertext = ciphertext }

abbrev pub fresh_bundle : RecoveryDraws → Bytes → RecoveryBundle
fresh_bundle draws ciphertext =
    bundle_of draws (recommended draws.salt) (envelope_of draws ciphertext)

module _ {D : Type 0} (lib : Primitives) (secrets : DeviceSecretStore D) where
  abbrev with_header : RecoveryDraws → VaultStore D → VaultStore D
  with_header draws s = record s { conn = record s.conn { vault_header = some (new_header draws) } }

  abbrev with_bundle : RecoveryDraws → Bytes → VaultStore D → VaultStore D
  with_bundle draws ciphertext s = record s {
    conn = record s.conn {
      vault_header = some (new_header draws);
      recovery_bundles = fresh_bundle draws ciphertext ∷ [];
    };
  }

  abbrev created : RecoveryDraws → Bytes → VaultStore D → VaultStore D
  created draws ciphertext s = record (with_bundle draws ciphertext s) {
    header = some (new_header draws);
  }

  create_vault_step :
      (text name : Text) (draws : RecoveryDraws) (device_draws : DeviceDraws) (wrap_key : SecretKey)
      (ciphertext : Bytes) (s : VaultStore D)
      → Creates lib text draws wrap_key ciphertext s
      → create_vault lib secrets text name draws device_draws s
        ≡ refresh_device_enrollment lib secrets name device_draws
            (unlocked_with draws.master_key (created draws ciphertext s))
  unfolding create_vault set_unlocked lift modify gets
  create_vault_step text name draws device_draws wrap_key ciphertext s c =
      let t : VaultStore D = with_header draws s in
      let u : VaultStore D = with_bundle draws ciphertext s in
      let v : VaultStore D = created draws ciphertext s in
      bind_ok _ _ s s s.header refl
      ∙ bind_ok _ _ s s tt (raise_if-false _ _ s (ap is_some c.no_header))
      ∙ bind_ok _ _ s s tt (raise_if-false _ _ s c.not_blank)
      ∙ bind_ok _ _ s s wrap_key (ap (λ r. (r, s)) c.derived)
      ∙ bind_ok _ _ s t tt (
          sql_lem _ s _ t.conn (
            insert_header-Quiet (new_header draws) s.conn c.quiet c.no_stored_header (omega arith)))
      ∙ bind_ok _ _ t t (envelope_of draws ciphertext) (
          ap (λ r. (r, t))
            (encrypt_some lib wrap_key draws.master_key draws.nonce ciphertext _ c.sealed))
      ∙ bind_ok _ _ t u tt (
          sql_lem _ t _ u.conn
            (insert_recovery_bundle-Quiet (fresh_bundle draws ciphertext) t.conn c.quiet))
      ∙ bind_ok _ _ u v tt refl
      ∙ bind_ok _ _ v (unlocked_with draws.master_key v) tt refl

  created-OpensWith :
      IsCipher lib
      → (text : Text) (draws : RecoveryDraws) (wrap_key : SecretKey) (ciphertext : Bytes)
        (s : VaultStore D)
      → Creates lib text draws wrap_key ciphertext s
      → OpensWith lib text draws.master_key
          (unlocked_with draws.master_key (created draws ciphertext s))
  unfolding first bundle_of new_header
  created-OpensWith cipher text draws wrap_key ciphertext s c = record {
    quiet = c.quiet;
    header = new_header draws;
    has_header = refl;
    bundle = fresh_bundle draws ciphertext;
    has_bundle = refl;
    wrap_key = wrap_key;
    derived = c.derived;
    opened =
        decrypt_recovery-encrypt lib cipher wrap_key draws.vault_id draws.master_key
          (fresh_bundle draws ciphertext) c.sealed c.nonce_fits;
    long_enough = c.key_fits;
  }

  pub create_vault-Opened :
      IsCipher lib
      → (text name : Text) (draws : RecoveryDraws) (device_draws : DeviceDraws)
        (wrap_key : SecretKey) (ciphertext : Bytes) (s : VaultStore D)
      → Creates lib text draws wrap_key ciphertext s
      → Opened lib text draws.master_key (create_vault lib secrets text name draws device_draws s)
  create_vault-Opened cipher text name draws device_draws wrap_key ciphertext s c =
      rw (create_vault_step text name draws device_draws wrap_key ciphertext s c) (
        refreshed-Opened lib secrets text name device_draws draws.master_key
          (created draws ciphertext s)
          (created-OpensWith cipher text draws wrap_key ciphertext s c))

  -- A vault is created with a passphrase that is not blank, on an empty database that answers, with a
  -- cipher that opens what it seals, then locked, and unlocked with the same passphrase: every call
  -- returns, whatever the device store answers, and the vault is unlocked with the master key that
  -- it was created with, which its recovery bundle goes on to give for that passphrase.
  pub unlock_with_passphrase-create_vault :
      IsCipher lib
      → (text name : Text) (draws : RecoveryDraws) (device_draws later_draws : DeviceDraws)
        (wrap_key : SecretKey) (ciphertext : Bytes) (s : VaultStore D)
      → Creates lib text draws wrap_key ciphertext s
      → Opened lib text draws.master_key (
          (create_vault lib secrets text name draws device_draws
              >> lock
              >> unlock_with_passphrase lib secrets text name later_draws)
            s)
  unlock_with_passphrase-create_vault cipher text name draws device_draws later_draws wrap_key
        ciphertext s c =
      let made = create_vault lib secrets text name draws device_draws s in
      let o = create_vault-Opened cipher text name draws device_draws wrap_key ciphertext s c in
      subst (Opened lib text draws.master_key) (sym (then_lock_lem _ _ s o.returned)) (
        unlock_with_passphrase_lem lib secrets text name later_draws draws.master_key _
          (locked-OpensWith lib text draws.master_key made.1 o.still))
