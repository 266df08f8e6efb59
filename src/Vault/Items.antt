-- ===== src/Vault/Items.antt =====
-- Hosts, credentials, keys and port forwards of a vault, in crates/seance-vault/src/lib.rs: listing
-- and loading them, and the checks of a host, a credential and their references.
use seance.Prelude.{
  Bool, true, false, not, ◌&&◌, Option, none, some, List, ◌==◌, is_empty, is_some, Text, trim,
  list_beq, nat_eq, list_eq, Result, ok, err,
}
use seance.Prelude.Compare.{ℤ}
use seance.Config.Keybindings.{eq_ignore_ascii_case}
use seance.Vault.Exec.{pure, lift, gets, raise_if, ◌>>=◌, ◌>>◌, for_each, collect}
use seance.Vault.Model.{
  RecordKind, host_kind, password_credential_kind, private_key_kind, port_forward_kind,
  EncryptedRecord, HostAuthRef, password, private_key, HostAuthSummary,
}
use seance.Vault.Failure.{
  VaultError, empty_host_label, empty_host_name, empty_host_user, empty_credential_label,
  empty_credential_secret, missing_credential_reference, missing_private_key_reference,
}
use seance.Vault.Storage.{list_records_by_kind}
use seance.Vault.Crypto.{Primitives}
use seance.Vault.Session.{Method, sql}
use seance.Vault.Profiles.{
  VaultHostProfile, PortForwardMode, local_mode, remote_mode, VaultPortForwardProfile,
  VaultPasswordCredential, VaultPrivateKey, HostSummary, CredentialSummary, KeySummary,
  PortForwardSummary, host_summary, auth_summary, credential_summary, key_summary,
  port_forward_summary, Stored, Serde, stored_host, stored_credential, stored_key,
  stored_port_forward,
}
use seance.Vault.Decrypt.{decrypt_record}
use seance.Vault.Keys.{SshKey}
use seance.Vault.Records.{load_record_payload}

-- What the other libraries do: ciphers, serde on the four types, and ssh_key's reading of keys.
pub record Libraries : Type 0 where
  pub primitives : Primitives
  pub hosts : Serde VaultHostProfile
  pub credentials : Serde VaultPasswordCredential
  pub keys : Serde VaultPrivateKey
  pub port_forwards : Serde VaultPortForwardProfile
  pub from_openssh : Text → Option SshKey

unfoldable pub validate_host : VaultHostProfile → {D : Type 0} → Method D (Unit {0})
validate_host host = do
  raise_if (is_empty (trim host.label)) empty_host_label
  raise_if (is_empty (trim host.hostname)) empty_host_name
  raise_if (is_empty (trim host.username)) empty_host_user

unfoldable pub validate_password_credential :
    VaultPasswordCredential → {D : Type 0} → Method D (Unit {0})
validate_password_credential credential = do
  raise_if (is_empty (trim credential.label)) empty_credential_label
  raise_if (is_empty (trim credential.secret)) empty_credential_secret

unfoldable pub uses_credential : Text → HostAuthRef → Bool
uses_credential id (password credential_id) = list_beq credential_id id
uses_credential id (private_key key_id none) = false
uses_credential id (private_key key_id (some passphrase_id)) = list_beq passphrase_id id

unfoldable pub uses_key : Text → HostAuthRef → Bool
uses_key id (password credential_id) = false
uses_key id (private_key key_id passphrase_id) = list_beq key_id id

-- PortForwardMode's `==`.
pub mode_beq : PortForwardMode → PortForwardMode → Bool
mode_beq local_mode local_mode = true
mode_beq remote_mode remote_mode = true
mode_beq local_mode remote_mode = false
mode_beq remote_mode local_mode = false

-- The listen endpoint of a forward that is there, against that of a new one.
unfoldable pub same_endpoint : VaultPortForwardProfile → VaultPortForwardProfile → Bool
unfolding mode_beq
same_endpoint existing new =
    list_beq existing.host_id new.host_id
    && mode_beq existing.mode new.mode
    && (existing.listen_port == new.listen_port)
    && eq_ignore_ascii_case existing.listen_address (trim new.listen_address)

summarized : {T S : Type 0} → (T → ℤ → S) → ℤ → Result VaultError T → Result VaultError S
summarized f modified_at (ok value) = ok (f value modified_at)
summarized f modified_at (err e) = err e

module _ {D : Type 0} (lib : Libraries) where
  -- The loops of the five listings, which differ in the type alone.
  unfoldable pub list_as : {T S : Type 0} → Stored T → RecordKind → (T → ℤ → S) → Method D (List S)
  unfolding summarized
  list_as stored kind f = do
    records ← sql (list_records_by_kind kind)
    s ← gets (λ s. s)
    lift (
        collect
          (λ (r : EncryptedRecord).
            summarized f r.modified_at
              (decrypt_record lib.primitives stored s.master_key s.header r))
          records)

  unfoldable pub list_host_profiles : Method D (List HostSummary)
  list_host_profiles = list_as (stored_host lib.hosts) host_kind host_summary

  unfoldable pub list_host_auth_summaries : Method D (List HostAuthSummary)
  list_host_auth_summaries =
      list_as (stored_host lib.hosts) host_kind (λ host modified_at. auth_summary host)

  unfoldable pub list_password_credentials : Method D (List CredentialSummary)
  list_password_credentials =
      list_as (stored_credential lib.credentials) password_credential_kind credential_summary

  unfoldable pub list_private_keys : Method D (List KeySummary)
  list_private_keys = list_as (stored_key lib.keys) private_key_kind key_summary

  unfoldable pub list_port_forwards : Method D (List PortForwardSummary)
  list_port_forwards =
      list_as (stored_port_forward lib.port_forwards) port_forward_kind port_forward_summary

  unfoldable pub active_hosts : Method D (List VaultHostProfile)
  active_hosts = list_as (stored_host lib.hosts) host_kind (λ host modified_at. host)

  unfoldable pub active_port_forwards : Method D (List VaultPortForwardProfile)
  active_port_forwards =
      list_as (stored_port_forward lib.port_forwards) port_forward_kind (λ p modified_at. p)

  unfoldable pub load_host_profile : Text → Method D (Option VaultHostProfile)
  load_host_profile id = load_record_payload lib.primitives (stored_host lib.hosts) id host_kind

  unfoldable pub load_password_credential : Text → Method D (Option VaultPasswordCredential)
  load_password_credential id =
      load_record_payload lib.primitives (stored_credential lib.credentials) id
        password_credential_kind

  unfoldable pub load_private_key : Text → Method D (Option VaultPrivateKey)
  load_private_key id = load_record_payload lib.primitives (stored_key lib.keys) id private_key_kind

  unfoldable pub load_port_forward : Text → Method D (Option VaultPortForwardProfile)
  load_port_forward id =
      load_record_payload lib.primitives (stored_port_forward lib.port_forwards) id
        port_forward_kind

  unfoldable pub require_credential : Text → Method D (Unit {0})
  require_credential id = do
    found ← load_password_credential id
    raise_if (not (is_some found)) (missing_credential_reference id)

  unfoldable pub require_passphrase : Option Text → Method D (Unit {0})
  unfolding require_credential
  require_passphrase none = pure tt
  require_passphrase (some id) = require_credential id

  -- The body of the loop of validate_host_auth_refs.
  unfoldable pub check_auth_ref : HostAuthRef → Method D (Unit {0})
  unfolding require_credential require_passphrase
  check_auth_ref (password credential_id) = require_credential credential_id
  check_auth_ref (private_key key_id passphrase_id) = do
    found ← load_private_key key_id
    raise_if (not (is_some found)) (missing_private_key_reference key_id)
    require_passphrase passphrase_id

  unfoldable pub validate_host_auth_refs : VaultHostProfile → Method D (Unit {0})
  unfolding check_auth_ref
  validate_host_auth_refs host = for_each host.auth_order check_auth_ref
