-- ===== src/Vault/Tests/Entries.antt =====
-- An unlocked vault with a host and a credential, on which the records of
-- crates/seance-vault/src/lib.rs are written, read and deleted.
use seance.Prelude.{
  ℕ, true, none, some, [], ◌∷◌, Text, codes, list_beq, nat_eq, list_eq, ◌≤◌, ◌<◌, ◌^◌, ◌-◌, ok, ◌≡◌,
  refl, arith,
}
use seance.Prelude.Compare.{pos}
use seance.Prelude.SortBy.{any, sort_by, retain}
use seance.Vault.Exec.{
  ◌>>=◌, collect, for_each, continue, gets, lift, modify, ok_or, pure, raise, raise_if,
}
use seance.Vault.Decrypt.{decrypt_record, decrypt_with, found_or}
use seance.Vault.Crypto.{decrypt, from_slice, decimal, record_aad, record_key_aad}
use seance.Vault.Model.{
  EncryptedRecord, RecordKind, host_kind, password_credential_kind, private_key_kind, pending,
  password, kind_as_str,
}
use seance.Vault.Storage.{
  find, has_key, list_records_by_kind, query, statement, answered, bind_option, bind_u64,
  bump_logical_clock, execute, is_active, load_record, newest_first, set_last_logical_clock,
  upsert_record, upsert_row, with_clock,
}
use seance.Vault.Storage.Rows.{Keyed, row_at}
use seance.Vault.Storage.Quiet.{OptionFits}
use seance.Vault.Session.{VaultStore, sql}
use seance.Vault.Profiles.{
  Serde, Stored, stored_credential, VaultHostProfile, VaultPortForwardProfile,
  VaultPasswordCredential,
}
use seance.Vault.Records.{
  WriteDraws, synced_clock, with_id, store_record, load_record_payload, advance_clock, delete_found,
  delete_record, tombstone,
}
use seance.Vault.Records.Writing.{Writes}
use seance.Vault.Records.Reading.{
  ReadsBack, Wrote, load_record_payload-store_record, store_record_lem,
}
use seance.Vault.Items.{
  Libraries, active_hosts, uses_credential, list_as, active_port_forwards, uses_key,
}
use seance.Vault.Writes.{
  delete_password_credential, ensure_credential_not_referenced, delete_private_key,
  delete_host_profile, ensure_private_key_not_referenced, ensure_host_not_referenced,
}
use seance.Vault.Writes.References.{
  Unreferenced, delete_password_credential-Unreferenced, delete_private_key-Unreferenced,
  delete_host_profile-Unreferenced,
}
use seance.Vault.Keys.{mpint_bit_length}
use seance.Vault.Keys.Size.{big_endian, mpint_bit_length_lem}
use seance.Vault.Tests.{bytes_of, plain, plain-IsCipher, existing, header, wrap_key}

abbrev login : VaultPasswordCredential
login = record { id = codes "c"; label = codes "login"; username_hint = none; secret = 1 ∷ [] }

abbrev secrets_alone : Serde VaultPasswordCredential
secrets_alone = record {
  to_vec = λ c. some c.secret;
  from_vec = λ bytes.
      some (record { id = codes "c"; label = codes "login"; username_hint = none; secret = bytes });
}

abbrev unlocked : VaultStore ℕ
unlocked = record existing { master_key = some wrap_key }

abbrev write_draws : WriteDraws
write_draws = record {
  uuid = codes "u";
  bumped_at = pos 5;
  now = pos 6;
  record_key = bytes_of 32 4;
  key_nonce = bytes_of 24 3;
  payload_nonce = bytes_of 24 2;
}

abbrev stored : Stored VaultPasswordCredential
stored = stored_credential secrets_alone

login_is_new :
    OptionFits
      (synced_clock (find (has_key (codes "c") password_credential_kind) unlocked.conn.records))
unfolding find synced_clock
login_is_new = tt

abbrev login-Writes : Writes plain stored login password_credential_kind write_draws unlocked
login-Writes = record {
  quiet = refl;
  keyed = tt;
  header = header;
  has_header = refl;
  stored_header = header;
  has_stored_header = refl;
  clock_fits = omega arith;
  master_key = wrap_key;
  has_master_key = refl;
  synced_fits = login_is_new;
  payload = 1 ∷ [];
  serialized = refl;
  ciphertext = 1 ∷ [];
  sealed = refl;
  wrapped_key = bytes_of 32 4;
  wrapped = refl;
}

login-ReadsBack : ReadsBack stored login write_draws (1 ∷ [])
login-ReadsBack = record {
  key_nonce_fits = refl;
  payload_nonce_fits = refl;
  key_fits = refl;
  read = refl;
}

load_record_payload-store_record_example :
    ((store_record plain stored login password_credential_kind write_draws >>= λ written.
    load_record_payload plain stored written.id password_credential_kind)
      unlocked).0
    ≡ ok (some login)
unfolding with_id
load_record_payload-store_record_example =
    load_record_payload-store_record plain stored plain-IsCipher login password_credential_kind
      write_draws unlocked login-Writes login-ReadsBack

store_record_lem_example :
    let r = store_record plain stored login password_credential_kind write_draws unlocked in
    (r.0 ≡ ok login)
    × Wrote (codes "c") password_credential_kind header header write_draws unlocked r.1
unfolding with_id
store_record_lem_example =
    store_record_lem plain stored login password_credential_kind write_draws unlocked login-Writes

mpint_bit_length_lem_example :
    let n = mpint_bit_length (3 ∷ 200 ∷ []) in
    (2 ^ (n - 1) ≤ big_endian (3 ∷ 200 ∷ [])) × (big_endian (3 ∷ 200 ∷ []) < 2 ^ n)
mpint_bit_length_lem_example =
    mpint_bit_length_lem 3 (200 ∷ []) (omega arith) (omega arith, (omega arith, tt)) (omega arith)

abbrev server : VaultHostProfile
server = record {
  id = codes "h";
  label = codes "server";
  hostname = codes "example.org";
  port = 22;
  username = codes "root";
  notes = none;
  auth_order = password (codes "other") ∷ [];
}

abbrev libraries : Libraries
libraries = record {
  primitives = plain;
  hosts = record { to_vec = λ h. none; from_vec = λ bytes. some server };
  credentials = secrets_alone;
  keys = record { to_vec = λ k. none; from_vec = λ bytes. none };
  port_forwards = record { to_vec = λ p. none; from_vec = λ bytes. none };
  from_openssh = λ text. none;
}

abbrev row_of : Text → RecordKind → EncryptedRecord
row_of id kind = record {
  record_id = id;
  kind = kind;
  version = 1;
  logical_clock = 1;
  modified_at = pos 5;
  deleted_at = none;
  key_nonce = bytes_of 24 3;
  wrapped_record_key = bytes_of 32 4;
  payload_nonce = bytes_of 24 2;
  payload_ciphertext = 1 ∷ [];
  last_synced_clock = none;
  sync_state = pending;
}

abbrev filled : VaultStore ℕ
filled = record unlocked {
  conn = record unlocked.conn {
    records =
        row_of (codes "h") host_kind
        ∷ row_of (codes "c") password_credential_kind
        ∷ row_of (codes "k") private_key_kind
        ∷ [];
  };
}

filled-Keyed : Keyed filled.conn.records
unfolding row_at list_beq
filled-Keyed = (refl, (refl, (refl, tt)))

-- Nothing refers to the credential, to the key or to the host.
deletions :
    ((delete_password_credential libraries (codes "c") (pos 7) (pos 8) filled).0 ≡ ok true)
    × ((delete_private_key libraries (codes "k") (pos 7) (pos 8) filled).0 ≡ ok true)
    × ((delete_host_profile libraries (codes "h") (pos 7) (pos 8) filled).0 ≡ ok true)
unfolding delete_password_credential ◌>>=◌ active_hosts list_as sql list_records_by_kind query
    statement collect sort_by retain list_beq kind_as_str decrypt_record decrypt from_slice for_each
    any decimal record_aad record_key_aad decrypt_with found_or continue gets lift modify ok_or pure
    raise raise_if uses_credential advance_clock delete_found delete_record tombstone answered
    bind_option bind_u64 bump_logical_clock execute find has_key is_active load_record newest_first
    set_last_logical_clock upsert_record upsert_row with_clock ensure_credential_not_referenced
    delete_private_key delete_host_profile ensure_private_key_not_referenced
    ensure_host_not_referenced active_port_forwards uses_key
deletions = (refl, refl, refl)

delete_password_credential-Unreferenced_example :
    Unreferenced
      (active_hosts libraries)
      (λ (h : VaultHostProfile). any (uses_credential (codes "c")) h.auth_order)
      (codes "c")
      password_credential_kind
      (pos 8)
      filled
      (delete_password_credential libraries (codes "c") (pos 7) (pos 8) filled).1
delete_password_credential-Unreferenced_example =
    delete_password_credential-Unreferenced libraries (codes "c") (pos 7) (pos 8) filled
      filled-Keyed deletions.0

delete_private_key-Unreferenced_example :
    Unreferenced
      (active_hosts libraries)
      (λ (h : VaultHostProfile). any (uses_key (codes "k")) h.auth_order)
      (codes "k")
      private_key_kind
      (pos 8)
      filled
      (delete_private_key libraries (codes "k") (pos 7) (pos 8) filled).1
delete_private_key-Unreferenced_example =
    delete_private_key-Unreferenced libraries (codes "k") (pos 7) (pos 8) filled filled-Keyed
      deletions.1

delete_host_profile-Unreferenced_example :
    Unreferenced
      (active_port_forwards libraries)
      (λ (p : VaultPortForwardProfile). list_beq p.host_id (codes "h"))
      (codes "h")
      host_kind
      (pos 8)
      filled
      (delete_host_profile libraries (codes "h") (pos 7) (pos 8) filled).1
delete_host_profile-Unreferenced_example =
    delete_host_profile-Unreferenced libraries (codes "h") (pos 7) (pos 8) filled filled-Keyed
      deletions.2
