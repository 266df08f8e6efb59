-- ===== src/Vault/Writes.antt =====
-- Storing and deleting hosts, credentials, keys and port forwards, in crates/seance-vault/src/lib.rs,
-- with the checks before a write and before a deletion.
pub mod References
use seance.Prelude.{
  ℕ, Bool, true, false, not, ◌&&◌, ◌||◌, Option, none, some, List, [], ◌∷◌, if◌then◌else◌, ◌==◌,
  is_empty, is_some, Text, trim, list_beq, nat_eq, list_eq, Result, ok, err,
}
use seance.Prelude.Compare.{ℤ}
use seance.Prelude.SortBy.{any}
use seance.Config.Keybindings.{eq_ignore_ascii_case}
use seance.Vault.Exec.{
  Exec, pure, raise, lift, gets, modify, raise_if, ◌>>=◌, ◌>>◌, for_each, collect,
}
use seance.Vault.Model.{
  RecordKind, host_kind, password_credential_kind, private_key_kind, port_forward_kind,
  EncryptedRecord, HostAuthRef, password, private_key, HostAuthSummary,
}
use seance.Vault.Failure.{
  VaultError, empty_host_label, empty_host_name, empty_host_user, empty_credential_label,
  empty_credential_secret, empty_private_key_label, empty_port_forward_label,
  empty_port_forward_host_reference, empty_port_forward_listen_address,
  empty_port_forward_target_address, invalid_port_forward_port, missing_credential_reference,
  missing_private_key_reference, missing_host_reference, credential_in_use, private_key_in_use,
  host_in_use_by_port_forward, duplicate_port_forward_listen_endpoint,
}
use seance.Vault.Storage.{list_records_by_kind}
use seance.Vault.Crypto.{Primitives}
use seance.Vault.Session.{VaultStore, Method, sql}
use seance.Vault.Profiles.{
  VaultHostProfile, PortForwardMode, local_mode, remote_mode, VaultPortForwardProfile,
  VaultPasswordCredential, ed25519, rsa, PrivateKeyAlgorithm, VaultPrivateKey, imported, generated,
  ImportKeyRequest, HostSummary, CredentialSummary, KeySummary, PortForwardSummary, host_summary,
  auth_summary, credential_summary, key_summary, port_forward_summary, Stored, Serde, stored_host,
  stored_credential, stored_key, stored_port_forward,
}
use seance.Vault.Decrypt.{decrypt_record}
use seance.Vault.Keys.{SshKey, default_rsa_bits, private_key_algorithm, ssh, validate_private_key}
use seance.Vault.Records.{
  WriteDraws, with_id, store_record, load_record_payload, delete_record, record_modified_at,
}
use seance.Vault.Items.{
  Libraries, validate_host, validate_password_credential, uses_credential, uses_key, same_endpoint,
  active_hosts, active_port_forwards, load_host_profile, validate_host_auth_refs,
}

-- A key that ssh_key made at random, with its text where that could be written.
pub record GeneratedKey : Type 0 where
  pub key : SshKey
  pub private_openssh : Option Text

pub data GenerateKeyAlgorithm : Type 0 where
  generate_ed25519 : GenerateKeyAlgorithm
  generate_rsa : ℕ → GenerateKeyAlgorithm

pub record GenerateKeyRequest : Type 0 where
  pub label : Text
  pub algorithm : GenerateKeyAlgorithm

unfoldable pub generated_algorithm : GenerateKeyAlgorithm → PrivateKeyAlgorithm
generated_algorithm generate_ed25519 = ed25519
generated_algorithm (generate_rsa bits) = rsa (if bits == 0 then default_rsa_bits else bits)

module _ {D : Type 0} (lib : Libraries) where
  unfoldable pub ensure_credential_not_referenced : Text → Method D (Unit {0})
  ensure_credential_not_referenced credential_id = do
    hosts ← active_hosts lib
    for_each hosts (λ (host : VaultHostProfile).
        raise_if (any (uses_credential credential_id) host.auth_order)
          (credential_in_use credential_id host.id))

  unfoldable pub ensure_private_key_not_referenced : Text → Method D (Unit {0})
  ensure_private_key_not_referenced key_id = do
    hosts ← active_hosts lib
    for_each hosts (λ (host : VaultHostProfile).
        raise_if (any (uses_key key_id) host.auth_order) (private_key_in_use key_id host.id))

  unfoldable pub ensure_host_not_referenced : Text → Method D (Unit {0})
  ensure_host_not_referenced host_id = do
    port_forwards ← active_port_forwards lib
    for_each port_forwards (λ (p : VaultPortForwardProfile).
        raise_if (list_beq p.host_id host_id) (host_in_use_by_port_forward host_id p.id))

  -- The body of the last loop of validate_port_forward.
  unfoldable pub check_endpoint :
      VaultPortForwardProfile → VaultPortForwardProfile → Method D (Unit {0})
  check_endpoint new existing =
      if list_beq existing.id new.id
      then pure tt
      else raise_if (same_endpoint existing new) (
          duplicate_port_forward_listen_endpoint new.host_id existing.label existing.listen_address
            existing.listen_port)

  unfoldable pub validate_port_forward : VaultPortForwardProfile → Method D (Unit {0})
  unfolding check_endpoint
  validate_port_forward p = do
    raise_if (is_empty (trim p.label)) empty_port_forward_label
    raise_if (is_empty (trim p.host_id)) empty_port_forward_host_reference
    raise_if (is_empty (trim p.listen_address)) empty_port_forward_listen_address
    raise_if (is_empty (trim p.target_address)) empty_port_forward_target_address
    raise_if ((p.listen_port == 0) || (p.target_port == 0)) invalid_port_forward_port
    host ← load_host_profile lib p.host_id
    raise_if (not (is_some host)) (missing_host_reference p.host_id)
    existing ← active_port_forwards lib
    for_each existing (check_endpoint p)

  -- The end of the four calls that store, which differ in the type alone.
  unfoldable pub stored_as :
      {T S : Type 0} → Stored T → RecordKind → (T → ℤ → S) → T → WriteDraws → Method D S
  stored_as stored kind f value draws = do
    written ← store_record lib.primitives stored (with_id stored value draws.uuid) kind draws
    modified_at ← record_modified_at (stored.record_id written) kind
    pure (f written modified_at)

  unfoldable pub store_host_profile : VaultHostProfile → WriteDraws → Method D HostSummary
  unfolding stored_as
  store_host_profile host draws = do
    validate_host host
    validate_host_auth_refs lib host
    stored_as (stored_host lib.hosts) host_kind host_summary host draws

  unfoldable pub store_password_credential :
      VaultPasswordCredential → WriteDraws → Method D CredentialSummary
  unfolding stored_as
  store_password_credential credential draws = do
    validate_password_credential credential
    stored_as (stored_credential lib.credentials) password_credential_kind credential_summary
        credential draws

  unfoldable pub store_private_key : VaultPrivateKey → WriteDraws → Method D KeySummary
  unfolding stored_as
  store_private_key key draws = do
    lift (validate_private_key lib.from_openssh key)
    stored_as (stored_key lib.keys) private_key_kind key_summary key draws

  unfoldable pub store_port_forward :
      VaultPortForwardProfile → WriteDraws → Method D PortForwardSummary
  unfolding stored_as validate_port_forward
  store_port_forward port_forward draws = do
    validate_port_forward port_forward
    stored_as (stored_port_forward lib.port_forwards) port_forward_kind port_forward_summary
        port_forward draws

  unfoldable pub delete_host_profile : Text → ℤ → ℤ → Method D Bool
  unfolding ensure_host_not_referenced
  delete_host_profile host_id bumped_at now = do
    ensure_host_not_referenced host_id
    delete_record host_id host_kind bumped_at now

  unfoldable pub delete_password_credential : Text → ℤ → ℤ → Method D Bool
  unfolding ensure_credential_not_referenced
  delete_password_credential id bumped_at now = do
    ensure_credential_not_referenced id
    delete_record id password_credential_kind bumped_at now

  unfoldable pub delete_private_key : Text → ℤ → ℤ → Method D Bool
  unfolding ensure_private_key_not_referenced
  delete_private_key id bumped_at now = do
    ensure_private_key_not_referenced id
    delete_record id private_key_kind bumped_at now

  unfoldable pub delete_port_forward : Text → ℤ → ℤ → Method D Bool
  delete_port_forward id bumped_at now = delete_record id port_forward_kind bumped_at now

  -- `made` is what ssh_key makes at random, `none` where it cannot.
  unfoldable pub generate_private_key :
      GenerateKeyRequest → Option GeneratedKey → WriteDraws → Method D KeySummary
  unfolding store_private_key generated_algorithm
  generate_private_key request made draws = do
    raise_if (is_empty (trim request.label)) empty_private_key_label
    made_key ← lift (ssh made)
    public_key_openssh ← lift (ssh made_key.key.public_openssh)
    private_key_pem ← lift (ssh made_key.private_openssh)
    store_private_key
        (record {
          id = [];
          label = request.label;
          algorithm = generated_algorithm request.algorithm;
          public_key_openssh = public_key_openssh;
          private_key_pem = private_key_pem;
          encrypted_at_rest = made_key.key.is_encrypted;
          source = generated;
        })
        draws

  unfoldable pub import_private_key : ImportKeyRequest → WriteDraws → Method D KeySummary
  unfolding store_private_key
  import_private_key request draws = do
    key ← lift (ssh (lib.from_openssh request.private_key_pem))
    algorithm ← lift (private_key_algorithm key.algorithm)
    public_key_openssh ← lift (ssh key.public_openssh)
    store_private_key
        (record {
          id = [];
          label = request.label;
          algorithm = algorithm;
          public_key_openssh = public_key_openssh;
          private_key_pem = request.private_key_pem;
          encrypted_at_rest = key.is_encrypted;
          source = imported;
        })
        draws
