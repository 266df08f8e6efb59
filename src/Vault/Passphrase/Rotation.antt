-- ===== src/Vault/Passphrase/Rotation.antt =====
-- Changing the passphrase of a vault in crates/seance-vault/src/lib.rs.
use mathlib.Core.Option
use seance.Prelude.{
  false, some, [], ◌∷◌, Text, length, trim, is_empty, ok, ◌≡◌, refl, ap, ◌∙◌, sym, subst,
}
use seance.Vault.Exec.{lift, modify, ◌>>◌, bind_ok}
use seance.Vault.Model.{Bytes, VaultHeader}
use seance.Vault.Failure.{vault_not_initialized}
use seance.Vault.Storage.{first, update_header_after_rotation}
use seance.Vault.Storage.Quiet.{execute-Quiet, insert_recovery_bundle-Quiet}
use seance.Vault.Crypto.{
  Primitives, SecretKey, nonce_len, recommended, derive_wrap_key, recovery_aad,
}
use seance.Vault.Crypto.Roundtrip.{IsCipher, encrypt_some, decrypt_recovery-encrypt}
use seance.Vault.Session.{VaultStore, DeviceSecretStore, DeviceDraws, lock}
use seance.Vault.Session.Ready.{sql_lem, get_header-some, raise_if-false}
use seance.Vault.Passphrase.{
  RecoveryDraws, bundle_of, rotated_header, unlock_with_passphrase, rotate_passphrase,
}
use seance.Vault.Passphrase.Unlock.{
  OpensWith, Opened, get_bundle-some, locked, locked-OpensWith, then_lock_lem,
  unlock_with_passphrase_lem,
}
use seance.Vault.Passphrase.Creation.{envelope_of, fresh_bundle}

-- What a change of passphrase needs: the new one is not blank, its key can be derived, and the
-- cipher seals the master key.
pub record Rotates (lib : Primitives) (vault_id text : Text) (draws : RecoveryDraws)
    (wrap_key : SecretKey) (ciphertext key : Bytes) : Type 0 where
  pub not_blank : is_empty (trim text) ≡ false
  pub derived : derive_wrap_key lib (recommended draws.salt) text ≡ ok wrap_key
  pub sealed :
      lib.encrypt wrap_key.bytes draws.nonce key
        (recovery_aad lib vault_id (recommended draws.salt))
      ≡ some ciphertext
  pub nonce_fits : length draws.nonce ≡ nonce_len

module _ {D : Type 0} (lib : Primitives) (secrets : DeviceSecretStore D) where
  abbrev with_bundle : RecoveryDraws → Bytes → VaultStore D → VaultStore D
  with_bundle draws ciphertext s = record s {
    conn = record s.conn { recovery_bundles = fresh_bundle draws ciphertext ∷ [] };
  }

  abbrev with_stored_header : RecoveryDraws → Bytes → VaultStore D → VaultStore D
  with_stored_header draws ciphertext s = record s {
    conn = record s.conn {
      recovery_bundles = fresh_bundle draws ciphertext ∷ [];
      vault_header =
          Option.map
            (λ (h : VaultHeader). record h {
              recovery_kdf = recommended draws.salt;
              updated_at = draws.now;
            })
            s.conn.vault_header;
    };
  }

  abbrev rotated : RecoveryDraws → Bytes → VaultStore D → VaultStore D
  rotated draws ciphertext s = record (with_stored_header draws ciphertext s) {
    header = Option.map (rotated_header (recommended draws.salt) draws.now) s.header;
  }

  -- Both statements are answered, and the header in memory follows.
  rotate_passphrase_step :
      (old_text new_text : Text) (draws : RecoveryDraws) (wrap_key : SecretKey)
      (ciphertext key : Bytes) (s : VaultStore D) (o : OpensWith lib old_text key s)
      → Rotates lib o.header.vault_id new_text draws wrap_key ciphertext key
      → rotate_passphrase lib secrets old_text new_text draws s
        ≡ (ok tt, rotated draws ciphertext s)
  unfolding rotate_passphrase update_header_after_rotation lift modify
  rotate_passphrase_step old_text new_text draws wrap_key ciphertext key s o c =
      let t : VaultStore D = with_bundle draws ciphertext s in
      let u : VaultStore D = with_stored_header draws ciphertext s in
      bind_ok _ _ s s tt (raise_if-false _ _ s c.not_blank)
      ∙ bind_ok _ _ s s o.header (get_header-some vault_not_initialized s o.header o.has_header)
      ∙ bind_ok _ _ s s o.bundle (get_bundle-some s o.bundle o.quiet o.has_bundle)
      ∙ bind_ok _ _ s s o.wrap_key (ap (λ r. (r, s)) o.derived)
      ∙ bind_ok _ _ s s key (ap (λ r. (r, s)) o.opened)
      ∙ bind_ok _ _ s s wrap_key (ap (λ r. (r, s)) c.derived)
      ∙ bind_ok _ _ s s (envelope_of draws ciphertext)
          (ap (λ r. (r, s)) (encrypt_some lib wrap_key key draws.nonce ciphertext _ c.sealed))
      ∙ bind_ok _ _ s t tt (
          sql_lem _ s _ t.conn
            (insert_recovery_bundle-Quiet (fresh_bundle draws ciphertext) s.conn o.quiet))
      ∙ bind_ok _ _ t u tt (sql_lem _ t _ u.conn (execute-Quiet _ t.conn o.quiet))

  rotated-OpensWith :
      IsCipher lib
      → (old_text new_text : Text) (draws : RecoveryDraws) (wrap_key : SecretKey)
        (ciphertext key : Bytes) (s : VaultStore D) (o : OpensWith lib old_text key s)
      → Rotates lib o.header.vault_id new_text draws wrap_key ciphertext key
      → OpensWith lib new_text key (rotated draws ciphertext s)
  unfolding first bundle_of rotated_header
  rotated-OpensWith cipher old_text new_text draws wrap_key ciphertext key s o c = record {
    quiet = o.quiet;
    header = rotated_header (recommended draws.salt) draws.now o.header;
    has_header = ap (Option.map (rotated_header (recommended draws.salt) draws.now)) o.has_header;
    bundle = fresh_bundle draws ciphertext;
    has_bundle = refl;
    wrap_key = wrap_key;
    derived = c.derived;
    opened =
        decrypt_recovery-encrypt lib cipher wrap_key o.header.vault_id key
          (fresh_bundle draws ciphertext) c.sealed c.nonce_fits;
    long_enough = o.long_enough;
  }

  -- A vault that opens with its passphrase takes a new one that is not blank, on a database that
  -- answers and with a cipher that opens what it seals: the change returns, and once the vault is
  -- locked, the new passphrase unlocks it with the same master key, which the recovery bundle goes
  -- on to give for the new passphrase.
  pub unlock_with_passphrase-rotate_passphrase :
      IsCipher lib
      → (old_text new_text name : Text) (draws : RecoveryDraws) (device_draws : DeviceDraws)
        (wrap_key : SecretKey) (ciphertext key : Bytes) (s : VaultStore D)
        (o : OpensWith lib old_text key s)
      → Rotates lib o.header.vault_id new_text draws wrap_key ciphertext key
      → Opened lib new_text key (
          (rotate_passphrase lib secrets old_text new_text draws
              >> lock
              >> unlock_with_passphrase lib secrets new_text name device_draws)
            s)
  unlock_with_passphrase-rotate_passphrase cipher old_text new_text name draws device_draws wrap_key
        ciphertext key s o c =
      let step = rotate_passphrase_step old_text new_text draws wrap_key ciphertext key s o c in
      let t : VaultStore D = rotated draws ciphertext s in
      subst (Opened lib new_text key)
        (sym (
          then_lock_lem _ _ s (ap (λ r. r.0) step)
          ∙ ap (λ r. unlock_with_passphrase lib secrets new_text name device_draws (locked r.1))
              step))
        (unlock_with_passphrase_lem lib secrets new_text name device_draws key (locked t) (
          locked-OpensWith lib new_text key t
            (rotated-OpensWith cipher old_text new_text draws wrap_key ciphertext key s o c)))
