-- ===== src/Vault/Passphrase/Interrupted.antt =====
-- A change of passphrase in crates/seance-vault/src/lib.rs that SQLite interrupts.
use seance.Prelude.{true, false, none, some, [], ◌∷◌, Text, codes, ok, err, ◌≡◌, refl, ap, ◌∙◌}
use seance.Vault.Exec.{pure, gets, lift, modify, ok_or, ◌>>=◌, bind_ok, bind_err, raise}
use seance.Vault.Model.{Bytes, VaultHeader, RecoveryBundle}
use seance.Vault.Failure.{VaultError, database, vault_not_initialized, corrupt_vault}
use seance.Vault.Storage.{
  query, execute, statement, answered, first, load_recovery_bundle, insert_recovery_bundle,
}
use seance.Vault.Crypto.{Primitives, SecretKey}
use seance.Vault.Crypto.Roundtrip.{encrypt_some}
use seance.Vault.Session.{VaultStore, DeviceSecretStore, DeviceDraws, sql}
use seance.Vault.Session.Ready.{get_header-some, raise_if-false}
use seance.Vault.Passphrase.{RecoveryDraws, get_bundle, unlock_with_passphrase, rotate_passphrase}
use seance.Vault.Passphrase.Unlock.{OpensWith}
use seance.Vault.Passphrase.Creation.{envelope_of, fresh_bundle}
use seance.Vault.Passphrase.Rotation.{Rotates}

module _ {D : Type 0} where
  -- SQLite answers the next two statements and refuses the third.
  abbrev pub interrupted : VaultStore D → VaultStore D
  interrupted s = record s { conn = record s.conn { faults = false ∷ false ∷ true ∷ [] } }

  abbrev bundle_read : VaultStore D → VaultStore D
  bundle_read s = record s { conn = record s.conn { faults = false ∷ true ∷ [] } }

  abbrev bundle_lost : VaultStore D → VaultStore D
  bundle_lost s = record s { conn = record s.conn { recovery_bundles = []; faults = [] } }

  read_lem :
      (s : VaultStore D)
      → sql load_recovery_bundle (interrupted s)
        ≡ (ok (first s.conn.recovery_bundles), bundle_read s)
  unfolding sql load_recovery_bundle query statement answered ◌>>=◌ gets
  read_lem s = refl

  write_lem :
      (bundle : RecoveryBundle) (s : VaultStore D)
      → sql (insert_recovery_bundle bundle) (bundle_read s) ≡ (err database, bundle_lost s)
  unfolding sql insert_recovery_bundle execute statement answered ◌>>=◌ modify
  write_lem bundle s = refl

  read_lost :
      (s : VaultStore D) → sql load_recovery_bundle (bundle_lost s) ≡ (ok none, bundle_lost s)
  unfolding sql load_recovery_bundle query statement answered first ◌>>=◌ gets
  read_lost s = refl

  get_bundle-interrupted :
      (s : VaultStore D) (bundle : RecoveryBundle)
      → first s.conn.recovery_bundles ≡ some bundle
      → get_bundle (interrupted s) ≡ (ok bundle, bundle_read s)
  unfolding get_bundle ok_or pure
  get_bundle-interrupted s bundle e =
      bind_ok _ _ (interrupted s) (bundle_read s) (first s.conn.recovery_bundles) (read_lem s)
      ∙ ap
          (λ o.
            ok_or {E = VaultError} o (corrupt_vault (codes "missing recovery bundle"))
              (bundle_read s))
          e

  get_bundle_lost :
      (s : VaultStore D)
      → get_bundle (bundle_lost s)
        ≡ (err (corrupt_vault (codes "missing recovery bundle")), bundle_lost s)
  unfolding get_bundle ok_or raise
  get_bundle_lost s = bind_ok _ _ (bundle_lost s) (bundle_lost s) none (read_lost s)

module _ {D : Type 0} (lib : Primitives) (secrets : DeviceSecretStore D) where
  rotate_passphrase_lost :
      (old_text new_text : Text) (draws : RecoveryDraws) (wrap_key : SecretKey)
      (ciphertext key : Bytes) (s : VaultStore D) (o : OpensWith lib old_text key s)
      → Rotates lib o.header.vault_id new_text draws wrap_key ciphertext key
      → rotate_passphrase lib secrets old_text new_text draws (interrupted s)
        ≡ (err database, bundle_lost s)
  unfolding rotate_passphrase lift
  rotate_passphrase_lost old_text new_text draws wrap_key ciphertext key s o c =
      let t : VaultStore D = interrupted s in
      let u : VaultStore D = bundle_read s in
      bind_ok _ _ t t tt (raise_if-false _ _ t c.not_blank)
      ∙ bind_ok _ _ t t o.header (get_header-some vault_not_initialized t o.header o.has_header)
      ∙ bind_ok _ _ t u o.bundle (get_bundle-interrupted s o.bundle o.has_bundle)
      ∙ bind_ok _ _ u u o.wrap_key (ap (λ r. (r, u)) o.derived)
      ∙ bind_ok _ _ u u key (ap (λ r. (r, u)) o.opened)
      ∙ bind_ok _ _ u u wrap_key (ap (λ r. (r, u)) c.derived)
      ∙ bind_ok _ _ u u (envelope_of draws ciphertext)
          (ap (λ r. (r, u)) (encrypt_some lib wrap_key key draws.nonce ciphertext _ c.sealed))
      ∙ bind_err _ _ u (bundle_lost s) database (write_lem (fresh_bundle draws ciphertext) s)

  unlock_lost :
      (text name : Text) (draws : DeviceDraws) (s : VaultStore D) (h : VaultHeader)
      → s.header ≡ some h
      → (unlock_with_passphrase lib secrets text name draws (bundle_lost s)).0
        ≡ err (corrupt_vault (codes "missing recovery bundle"))
  unfolding unlock_with_passphrase
  unlock_lost text name draws s h e =
      let t : VaultStore D = bundle_lost s in
      ap (λ r. r.0)
        (bind_ok _ _ t t h (get_header-some vault_not_initialized t h e)
          ∙ bind_err _ _ t t (corrupt_vault (codes "missing recovery bundle")) (get_bundle_lost s))

  -- A vault opens with its passphrase and is about to take a new one that is not blank. SQLite answers
  -- the reading of the recovery bundle and its deletion, and refuses the insertion of the new one:
  -- the change fails, and no passphrase unlocks the vault any more, the old one included.
  pub rotate_passphrase-interrupted :
      (old_text new_text : Text) (draws : RecoveryDraws) (wrap_key : SecretKey)
      (ciphertext key : Bytes) (s : VaultStore D) (o : OpensWith lib old_text key s)
      → Rotates lib o.header.vault_id new_text draws wrap_key ciphertext key
      → let r = rotate_passphrase lib secrets old_text new_text draws (interrupted s) in
        (r.0 ≡ err database)
        × ((text name : Text) (device_draws : DeviceDraws)
            → (unlock_with_passphrase lib secrets text name device_draws r.1).0
              ≡ err (corrupt_vault (codes "missing recovery bundle")))
  rotate_passphrase-interrupted old_text new_text draws wrap_key ciphertext key s o c =
      rw (rotate_passphrase_lost old_text new_text draws wrap_key ciphertext key s o c)
        (refl, λ text name device_draws. unlock_lost text name device_draws s o.header o.has_header)
