-- ===== src/Vault/Records/Writing.antt =====
-- store_record of crates/seance-vault/src/lib.rs on a database that answers, step by step.
use mathlib.Core.Option
use seance.Prelude.{ℕ, ◌+◌, Option, some, nat_eq, list_eq, ok, ◌≡◌, refl, ap, ◌∙◌}
use seance.Vault.Exec.{pure, lift, modify, bind_ok}
use seance.Vault.Model.{Bytes, RecordKind, VaultHeader, EncryptedRecord, record_schema_version}
use seance.Vault.Failure.{serialization}
use seance.Vault.Storage.{Conn, find, has_key, upsert_row, with_clock}
use seance.Vault.Storage.Rows.{Keyed}
use seance.Vault.Storage.Quiet.{
  Quiet, Fits, OptionFits, load_record-Quiet, upsert_record-Quiet, bump_logical_clock-Quiet,
}
use seance.Vault.Crypto.{Primitives, SecretKey, record_key_aad, record_aad}
use seance.Vault.Crypto.Roundtrip.{encrypt_some}
use seance.Vault.Session.{VaultStore}
use seance.Vault.Session.Ready.{sql_lem}
use seance.Vault.Profiles.{Stored}
use seance.Vault.Decrypt.{found_or}
use seance.Vault.Records.{WriteDraws, advance_clock, synced_clock, sealed_record, write_record}

-- What a write needs: an unlocked vault on a database that answers, room for the next clock, serde and
-- the cipher at work on the value, and keys and nonces of the lengths that are drawn.
pub record Writes {D T : Type 0} (lib : Primitives) (stored : Stored T) (value : T)
    (kind : RecordKind) (draws : WriteDraws) (s : VaultStore D) : Type 0 where
  pub quiet : Quiet s.conn
  pub keyed : Keyed s.conn.records
  pub header : VaultHeader
  pub has_header : s.header ≡ some header
  pub stored_header : VaultHeader
  pub has_stored_header : s.conn.vault_header ≡ some stored_header
  pub clock_fits : Fits (stored_header.last_logical_clock + 1)
  pub master_key : SecretKey
  pub has_master_key : s.master_key ≡ some master_key
  pub synced_fits :
      OptionFits (synced_clock (find (has_key (stored.record_id value) kind) s.conn.records))
  pub payload : Bytes
  pub serialized : stored.to_vec value ≡ some payload
  pub ciphertext : Bytes
  pub sealed :
      lib.encrypt draws.record_key draws.payload_nonce payload
        (record_aad header.vault_id (stored.record_id value) kind record_schema_version)
      ≡ some ciphertext
  pub wrapped_key : Bytes
  pub wrapped :
      lib.encrypt master_key.bytes draws.key_nonce draws.record_key
        (record_key_aad header.vault_id (stored.record_id value))
      ≡ some wrapped_key

module _ {D T : Type 0} (lib : Primitives) (stored : Stored T) (value : T) (kind : RecordKind)
    (draws : WriteDraws) (s : VaultStore D) (w : Writes lib stored value kind draws s) where
  abbrev pub next_clock : ℕ
  next_clock = w.stored_header.last_logical_clock + 1

  -- The row that is written.
  abbrev pub new_row : EncryptedRecord
  new_row =
      sealed_record stored value kind next_clock draws
        (synced_clock (find (has_key (stored.record_id value) kind) s.conn.records))
        (record { nonce = draws.key_nonce; ciphertext = w.wrapped_key })
        (record { nonce = draws.payload_nonce; ciphertext = w.ciphertext })

  abbrev pub clocked : VaultStore D
  clocked = record s {
    conn = record s.conn {
      vault_header = some (with_clock next_clock draws.bumped_at w.stored_header);
    };
    header = Option.map (with_clock next_clock draws.now) s.header;
  }

  -- The vault after the write.
  abbrev pub written_to : VaultStore D
  written_to = record clocked {
    conn = record clocked.conn { records = upsert_row new_row s.conn.records };
  }

  advance_clock_step : advance_clock draws.bumped_at draws.now s ≡ (ok next_clock, clocked)
  unfolding advance_clock modify pure
  advance_clock_step =
      let c : Conn = record s.conn {
        vault_header = some (with_clock next_clock draws.bumped_at w.stored_header);
      } in
      let t : VaultStore D = record s { conn = c } in
      bind_ok _ _ s t next_clock (
        sql_lem _ s _ c (
          bump_logical_clock-Quiet draws.bumped_at s.conn w.stored_header w.quiet
            w.has_stored_header w.clock_fits))
      ∙ bind_ok _ _ t clocked tt refl

  pub write_record_step :
      write_record lib stored value kind w.master_key w.header draws s ≡ (ok tt, written_to)
  unfolding write_record lift sealed_record found_or
  write_record_step =
      let previous : Option EncryptedRecord =
        find (has_key (stored.record_id value) kind) s.conn.records in
      bind_ok _ _ s s previous
        (sql_lem _ s _ s.conn (load_record-Quiet (stored.record_id value) kind s.conn w.quiet))
      ∙ bind_ok _ _ s clocked next_clock advance_clock_step
      ∙ bind_ok _ _ clocked clocked w.payload
          (ap (λ o. (found_or serialization o, clocked)) w.serialized)
      ∙ bind_ok _ _ clocked clocked
          (record { nonce = draws.payload_nonce; ciphertext = w.ciphertext })
          (ap (λ r. (r, clocked))
            (encrypt_some lib (record { bytes = draws.record_key }) w.payload draws.payload_nonce
              w.ciphertext _ w.sealed))
      ∙ bind_ok _ _ clocked clocked (record { nonce = draws.key_nonce; ciphertext = w.wrapped_key })
          (ap (λ r. (r, clocked))
            (encrypt_some lib w.master_key draws.record_key draws.key_nonce w.wrapped_key _
              w.wrapped))
      ∙ sql_lem _ clocked _ written_to.conn
          (upsert_record-Quiet new_row clocked.conn w.quiet w.clock_fits w.synced_fits)
