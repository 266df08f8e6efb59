-- ===== src/Vault/Sound/Contents.antt =====
-- Reading, storing and deleting records, in crates/seance-vault/src/lib.rs, on a sound vault.
use seance.Prelude.{true, false, Option, none, some, Text}
use seance.Prelude.Compare.{ℤ}
use seance.Vault.Exec.Keeps.{
  Keeps, Keeps-pure, Keeps-lift, Keeps-gets, Keeps-ok_or, Keeps-if, Keeps-raise_if, Keeps-bind,
  Keeps-for_each,
}
use seance.Vault.Model.{
  RecordKind, VaultHeader, EncryptedRecord, HostAuthRef, password, private_key,
}
use seance.Vault.Storage.{load_record, list_records_by_kind}
use seance.Vault.Crypto.{Primitives, SecretKey}
use seance.Vault.Session.{sql}
use seance.Vault.Profiles.{
  Stored, VaultHostProfile, VaultPortForwardProfile, VaultPasswordCredential, VaultPrivateKey,
  ImportKeyRequest,
}
use seance.Vault.Records.{
  WriteDraws, advance_clock, tombstone, delete_found, delete_record, record_modified_at,
  sealed_record, decrypted, load_found, load_record_payload, write_record, store_record,
}
use seance.Vault.Items.{
  Libraries, validate_host, validate_password_credential, list_as, active_hosts,
  active_port_forwards, load_host_profile, load_password_credential, load_private_key,
  require_credential, require_passphrase, check_auth_ref, validate_host_auth_refs,
}
use seance.Vault.Writes.{
  GeneratedKey, GenerateKeyRequest, ensure_credential_not_referenced,
  ensure_private_key_not_referenced, ensure_host_not_referenced, check_endpoint,
  validate_port_forward, stored_as, store_host_profile, store_password_credential,
  store_private_key, store_port_forward, delete_host_profile, delete_password_credential,
  delete_private_key, generate_private_key, import_private_key,
}
use seance.Vault.Sound.{IsSound}
use seance.Vault.Sound.Statements.{upsert_record-Sound, bump_logical_clock-Sound}
use seance.Vault.Sound.Unlocking.{
  sql-Sound, asked-Sound, header-Sound, get_header-Sound, get_master_key-Sound,
}

module _ {D : Type 0} where
  advance_clock-Sound : (bumped_at now : ℤ) → Keeps (IsSound {D = D}) (advance_clock bumped_at now)
  unfolding advance_clock
  advance_clock-Sound bumped_at now =
      Keeps-bind _ _ (sql-Sound _ (bump_logical_clock-Sound bumped_at))
        (λ clock. Keeps-bind _ _ (header-Sound _) (λ u. Keeps-pure clock))

  delete_found-Sound :
      (found : Option EncryptedRecord) (bumped_at now : ℤ)
      → Keeps (IsSound {D = D}) (delete_found found bumped_at now)
  unfolding delete_found tombstone
  delete_found-Sound none bumped_at now = Keeps-pure false
  delete_found-Sound (some r) bumped_at now = Keeps-if _ _ _ (Keeps-pure false) (
      Keeps-bind _ _ (advance_clock-Sound bumped_at now)
        (λ clock. Keeps-bind _ _ (sql-Sound _ (upsert_record-Sound _ tt)) (λ u. Keeps-pure true)))

  load-Sound : (id : Text) (kind : RecordKind) → Keeps (IsSound {D = D}) (sql (load_record id kind))
  unfolding load_record
  load-Sound id kind = asked-Sound _

  pub delete_record-Sound :
      (id : Text) (kind : RecordKind) (bumped_at now : ℤ)
      → Keeps (IsSound {D = D}) (delete_record id kind bumped_at now)
  unfolding delete_record
  delete_record-Sound id kind bumped_at now =
      Keeps-bind _ _ (load-Sound id kind) (λ found. delete_found-Sound found bumped_at now)

  record_modified_at-Sound :
      (id : Text) (kind : RecordKind) → Keeps (IsSound {D = D}) (record_modified_at id kind)
  unfolding record_modified_at
  record_modified_at-Sound id kind =
      Keeps-bind _ _ (load-Sound id kind)
        (λ found. Keeps-bind _ _ (Keeps-ok_or found _) (λ r. Keeps-pure _))

module _ {D T : Type 0} (lib : Primitives) (stored : Stored T) where
  load_found-Sound :
      (found : Option EncryptedRecord) → Keeps (IsSound {D = D}) (load_found lib stored found)
  unfolding load_found decrypted
  load_found-Sound none = Keeps-pure none
  load_found-Sound (some r) =
      Keeps-if _ _ _ (Keeps-pure none)
        (Keeps-bind _ _ (Keeps-bind _ _ (Keeps-gets _) (λ s. Keeps-lift _)) (λ value. Keeps-pure _))

  pub load_record_payload-Sound :
      (id : Text) (kind : RecordKind)
      → Keeps (IsSound {D = D}) (load_record_payload lib stored id kind)
  unfolding load_record_payload
  load_record_payload-Sound id kind =
      Keeps-bind _ _ (load-Sound id kind) (λ found. load_found-Sound found)

  write_record-Sound :
      (value : T) (kind : RecordKind) (key : SecretKey) (header : VaultHeader) (draws : WriteDraws)
      → Keeps (IsSound {D = D}) (write_record lib stored value kind key header draws)
  unfolding write_record sealed_record
  write_record-Sound value kind key header draws = Keeps-bind _ _ (load-Sound _ kind) (λ previous.
      Keeps-bind _ _ (advance_clock-Sound _ _) (λ clock. Keeps-bind _ _ (Keeps-lift _) (λ payload.
        Keeps-bind _ _ (Keeps-lift _) (λ envelope.
          Keeps-bind _ _ (Keeps-lift _) (λ wrapped. sql-Sound _ (upsert_record-Sound _ tt))))))

  store_record-Sound :
      (value : T) (kind : RecordKind) (draws : WriteDraws)
      → Keeps (IsSound {D = D}) (store_record lib stored value kind draws)
  unfolding store_record
  store_record-Sound value kind draws = Keeps-bind _ _ get_master_key-Sound (λ key.
      Keeps-bind _ _ (get_header-Sound _)
        (λ header. Keeps-bind _ _ (write_record-Sound _ kind key header draws) (λ u. Keeps-pure _)))

module _ {D : Type 0} (lib : Libraries) where
  pub list_as-Sound :
      {T S : Type 0} (stored : Stored T) (kind : RecordKind) (f : T → ℤ → S)
      → Keeps (IsSound {D = D}) (list_as lib stored kind f)
  unfolding list_as list_records_by_kind
  list_as-Sound stored kind f =
      Keeps-bind _ _ (asked-Sound _) (λ records. Keeps-bind _ _ (Keeps-gets _) (λ s. Keeps-lift _))

  stored_as-Sound :
      {T S : Type 0} (stored : Stored T) (kind : RecordKind) (f : T → ℤ → S) (value : T)
      (draws : WriteDraws)
      → Keeps (IsSound {D = D}) (stored_as lib stored kind f value draws)
  unfolding stored_as
  stored_as-Sound stored kind f value draws =
      Keeps-bind _ _ (store_record-Sound lib.primitives stored _ kind draws)
        (λ written. Keeps-bind _ _ (record_modified_at-Sound _ kind) (λ modified_at. Keeps-pure _))

  require_credential-Sound : (id : Text) → Keeps (IsSound {D = D}) (require_credential lib id)
  unfolding require_credential load_password_credential
  require_credential-Sound id =
      Keeps-bind _ _ (load_record_payload-Sound lib.primitives _ id _) (λ found. Keeps-raise_if _ _)

  require_passphrase-Sound :
      (id : Option Text) → Keeps (IsSound {D = D}) (require_passphrase lib id)
  unfolding require_passphrase
  require_passphrase-Sound none = Keeps-pure tt
  require_passphrase-Sound (some id) = require_credential-Sound id

  check_auth_ref-Sound : (r : HostAuthRef) → Keeps (IsSound {D = D}) (check_auth_ref lib r)
  unfolding check_auth_ref load_private_key
  check_auth_ref-Sound (password id) = require_credential-Sound id
  check_auth_ref-Sound (private_key id passphrase) =
      Keeps-bind _ _ (load_record_payload-Sound lib.primitives _ id _)
        (λ found. Keeps-bind _ _ (Keeps-raise_if _ _) (λ u. require_passphrase-Sound passphrase))

  pub store_host_profile-Sound :
      (host : VaultHostProfile) (draws : WriteDraws)
      → Keeps (IsSound {D = D}) (store_host_profile lib host draws)
  unfolding store_host_profile validate_host validate_host_auth_refs
  store_host_profile-Sound host draws =
      Keeps-bind _ _
        (Keeps-bind _ _ (Keeps-raise_if _ _)
          (λ a. Keeps-bind _ _ (Keeps-raise_if _ _) (λ b. Keeps-raise_if _ _)))
        (λ valid.
          Keeps-bind _ _ (Keeps-for_each _ _ check_auth_ref-Sound)
            (λ u. stored_as-Sound _ _ _ host draws))

  pub store_password_credential-Sound :
      (credential : VaultPasswordCredential) (draws : WriteDraws)
      → Keeps (IsSound {D = D}) (store_password_credential lib credential draws)
  unfolding store_password_credential validate_password_credential
  store_password_credential-Sound credential draws =
      Keeps-bind _ _ (Keeps-bind _ _ (Keeps-raise_if _ _) (λ a. Keeps-raise_if _ _))
        (λ valid. stored_as-Sound _ _ _ credential draws)

  pub store_private_key-Sound :
      (key : VaultPrivateKey) (draws : WriteDraws)
      → Keeps (IsSound {D = D}) (store_private_key lib key draws)
  unfolding store_private_key
  store_private_key-Sound key draws =
      Keeps-bind _ _ (Keeps-lift _) (λ valid. stored_as-Sound _ _ _ key draws)

  check_endpoint-Sound :
      (new existing : VaultPortForwardProfile)
      → Keeps (IsSound {D = D}) (check_endpoint lib new existing)
  unfolding check_endpoint
  check_endpoint-Sound new existing = Keeps-if _ _ _ (Keeps-pure tt) (Keeps-raise_if _ _)

  pub store_port_forward-Sound :
      (p : VaultPortForwardProfile) (draws : WriteDraws)
      → Keeps (IsSound {D = D}) (store_port_forward lib p draws)
  unfolding store_port_forward validate_port_forward load_host_profile active_port_forwards
  store_port_forward-Sound p draws =
      Keeps-bind _ _
        (Keeps-bind _ _ (Keeps-raise_if _ _) (λ a. Keeps-bind _ _ (Keeps-raise_if _ _) (λ b.
          Keeps-bind _ _ (Keeps-raise_if _ _) (λ c. Keeps-bind _ _ (Keeps-raise_if _ _) (λ d.
            Keeps-bind _ _ (Keeps-raise_if _ _) (λ e.
              Keeps-bind _ _ (load_record_payload-Sound lib.primitives _ _ _) (λ host.
                Keeps-bind _ _ (Keeps-raise_if _ _) (λ f.
                  Keeps-bind _ _ (list_as-Sound _ _ _)
                    (λ existing. Keeps-for_each _ _ (check_endpoint-Sound p))))))))))
        (λ valid. stored_as-Sound _ _ _ p draws)

  pub delete_host_profile-Sound :
      (id : Text) (bumped_at now : ℤ)
      → Keeps (IsSound {D = D}) (delete_host_profile lib id bumped_at now)
  unfolding delete_host_profile ensure_host_not_referenced active_port_forwards
  delete_host_profile-Sound id bumped_at now =
      Keeps-bind _ _
        (Keeps-bind _ _ (list_as-Sound _ _ _)
          (λ listed. Keeps-for_each _ _ (λ p. Keeps-raise_if _ _)))
        (λ free. delete_record-Sound id _ bumped_at now)

  pub delete_password_credential-Sound :
      (id : Text) (bumped_at now : ℤ)
      → Keeps (IsSound {D = D}) (delete_password_credential lib id bumped_at now)
  unfolding delete_password_credential ensure_credential_not_referenced active_hosts
  delete_password_credential-Sound id bumped_at now =
      Keeps-bind _ _
        (Keeps-bind _ _ (list_as-Sound _ _ _)
          (λ listed. Keeps-for_each _ _ (λ h. Keeps-raise_if _ _)))
        (λ free. delete_record-Sound id _ bumped_at now)

  pub delete_private_key-Sound :
      (id : Text) (bumped_at now : ℤ)
      → Keeps (IsSound {D = D}) (delete_private_key lib id bumped_at now)
  unfolding delete_private_key ensure_private_key_not_referenced active_hosts
  delete_private_key-Sound id bumped_at now =
      Keeps-bind _ _
        (Keeps-bind _ _ (list_as-Sound _ _ _)
          (λ listed. Keeps-for_each _ _ (λ h. Keeps-raise_if _ _)))
        (λ free. delete_record-Sound id _ bumped_at now)

  pub generate_private_key-Sound :
      (request : GenerateKeyRequest) (made : Option GeneratedKey) (draws : WriteDraws)
      → Keeps (IsSound {D = D}) (generate_private_key lib request made draws)
  unfolding generate_private_key
  generate_private_key-Sound request made draws = Keeps-bind _ _ (Keeps-raise_if _ _) (λ a.
      Keeps-bind _ _ (Keeps-lift _) (λ made_key.
        Keeps-bind _ _ (Keeps-lift _)
          (λ public_key. Keeps-bind _ _ (Keeps-lift _) (λ pem. store_private_key-Sound _ draws))))

  pub import_private_key-Sound :
      (request : ImportKeyRequest) (draws : WriteDraws)
      → Keeps (IsSound {D = D}) (import_private_key lib request draws)
  unfolding import_private_key
  import_private_key-Sound request draws = Keeps-bind _ _ (Keeps-lift _) (λ key.
      Keeps-bind _ _ (Keeps-lift _) (λ algorithm.
        Keeps-bind _ _ (Keeps-lift _) (λ public_key. store_private_key-Sound _ draws)))
