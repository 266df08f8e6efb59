-- ===== src/Vault/Records/Reading.antt =====
-- A record that store_record of crates/seance-vault/src/lib.rs writes, and that load_record_payload
-- reads back.
use mathlib.Core.Option
use seance.Prelude.{
  ◌+◌, true, false, Option, none, some, List, Text, length, is_some, list_beq, list_beq_iff, nat_eq,
  list_eq, ok, ◌≡◌, refl, ap, ◌∙◌,
}
use seance.Vault.Exec.{pure, gets, lift, ◌>>=◌, bind_ok}
use seance.Vault.Model.{
  Bytes, RecordKind, kind_as_str, VaultHeader, EncryptedRecord, record_schema_version, pending,
}
use seance.Vault.Failure.{vault_not_initialized}
use seance.Vault.Storage.{find, has_key, same_kind, upsert_row, with_clock}
use seance.Vault.Storage.Rows.{Keyed}
use seance.Vault.Storage.Quiet.{Quiet, load_record-Quiet}
use seance.Vault.Crypto.{Primitives, SecretKey, key_len, nonce_len, record_key_aad, record_aad}
use seance.Vault.Crypto.Roundtrip.{IsCipher, decrypt-encrypt, from_slice_fits}
use seance.Vault.Session.{VaultStore}
use seance.Vault.Session.Ready.{sql_lem, get_header-some, get_master_key-some}
use seance.Vault.Profiles.{Stored}
use seance.Vault.Decrypt.{found_or}
use seance.Vault.Records.{WriteDraws, synced_clock, sealed_record, with_id, store_record}
use seance.Vault.Storage.Rows.{row_at, find-has_key, row_at-upsert_row, upsert_row-Keyed}
use seance.Vault.Decrypt.{decrypt_with, decrypt_record}
use seance.Vault.Records.{load_found, decrypted, load_record_payload}
use seance.Vault.Records.Writing.{Writes, next_clock, new_row, written_to, write_record_step}

-- What reading back what was written needs: nonces and a key of the lengths that are drawn, and serde
-- reading what it wrote.
pub record ReadsBack {T : Type 0} (stored : Stored T) (value : T) (draws : WriteDraws)
    (payload : Bytes) : Type 0 where
  pub key_nonce_fits : length draws.key_nonce ≡ nonce_len
  pub payload_nonce_fits : length draws.payload_nonce ≡ nonce_len
  pub key_fits : length draws.record_key ≡ key_len
  pub read : stored.from_vec payload ≡ some value

kind_refl : (kind : RecordKind) → same_kind kind kind ≡ true
kind_refl kind = (list_beq_iff (kind_as_str kind) (kind_as_str kind)).1 refl

text_refl : (id : Text) → list_beq id id ≡ true
text_refl id = (list_beq_iff id id).1 refl

pub find-upsert_row :
    (new : EncryptedRecord) (rows : List EncryptedRecord)
    → Keyed rows
    → find (has_key new.record_id new.kind) (upsert_row new rows) ≡ some new
find-upsert_row new rows k =
    rw (find-has_key new.record_id new.kind (upsert_row new rows) (upsert_row-Keyed new rows k)) (
      rw (row_at-upsert_row new.record_id new rows)
        (rw (text_refl new.record_id) (rw (kind_refl new.kind) refl)))

decrypt_record_open :
    {T : Type 0} (lib : Primitives) (stored : Stored T) (found : Option SecretKey)
    (header : Option VaultHeader) (r : EncryptedRecord) (key : SecretKey) (h : VaultHeader)
    → found ≡ some key
    → header ≡ some h
    → decrypt_record lib stored found header r ≡ decrypt_with lib stored key h.vault_id r
unfolding decrypt_record found_or
decrypt_record_open lib stored found header r key h k e = simp (k, e) refl

-- What a write leaves: the clock goes up by one in the database and in memory, the vault stays
-- unlocked with its key, other records stay, and the record has the new clock and waits to be synced.
pub record Wrote {D : Type 0} (id : Text) (kind : RecordKind) (h g : VaultHeader)
    (draws : WriteDraws) (s t : VaultStore D) : Type 0 where
  pub header : t.header ≡ some (with_clock (g.last_logical_clock + 1) draws.now h)
  pub stored_header :
      t.conn.vault_header ≡ some (with_clock (g.last_logical_clock + 1) draws.bumped_at g)
  pub master_key : t.master_key ≡ s.master_key
  pub keyed : Keyed t.conn.records
  pub others :
      (other : Text)
      → list_beq id other ≡ false
      → row_at other t.conn.records ≡ row_at other s.conn.records
  pub entry : EncryptedRecord
  pub has_row : row_at id t.conn.records ≡ some entry
  pub clock : entry.logical_clock ≡ g.last_logical_clock + 1
  pub state : entry.sync_state ≡ pending
  pub alive : entry.deleted_at ≡ none
  pub synced_before : entry.last_synced_clock ≡ synced_clock (find (has_key id kind) s.conn.records)

module _ {D T : Type 0} (lib : Primitives) (stored : Stored T) where
  -- The steps of store_record, for a value that has its id.
  pub store_record_step :
      (value : T) (kind : RecordKind) (draws : WriteDraws) (s : VaultStore D)
      (w : Writes lib stored (with_id stored value draws.uuid) kind draws s)
      → store_record lib stored value kind draws s ≡ (
        ok (with_id stored value draws.uuid),
        written_to lib stored (with_id stored value draws.uuid) kind draws s w,
      )
  unfolding store_record pure
  store_record_step value kind draws s w =
      let v : T = with_id stored value draws.uuid in
      bind_ok _ _ s s w.master_key (get_master_key-some s w.master_key w.has_master_key)
      ∙ bind_ok _ _ s s w.header (get_header-some vault_not_initialized s w.header w.has_header)
      ∙ bind_ok _ _ s (written_to lib stored v kind draws s w) tt
          (write_record_step lib stored v kind draws s w)

  decrypt_with-new_row :
      IsCipher lib
      → (value : T) (kind : RecordKind) (draws : WriteDraws) (s : VaultStore D)
        (w : Writes lib stored value kind draws s)
      → ReadsBack stored value draws w.payload
      → decrypt_with lib stored w.master_key w.header.vault_id
          (new_row lib stored value kind draws s w)
        ≡ ok value
  unfolding decrypt_with sealed_record found_or
  decrypt_with-new_row cipher value kind draws s w b =
      rw
        (decrypt-encrypt lib cipher w.master_key draws.record_key draws.key_nonce w.wrapped_key
          (record_key_aad w.header.vault_id (stored.record_id value)) w.wrapped b.key_nonce_fits)
        (rw (from_slice_fits draws.record_key b.key_fits) (
          rw
            (decrypt-encrypt lib cipher (record { bytes = draws.record_key }) w.payload
              draws.payload_nonce w.ciphertext
              (record_aad w.header.vault_id (stored.record_id value) kind record_schema_version)
              w.sealed b.payload_nonce_fits)
            (rw b.read refl)))

  -- What is read, from a state that has the row and the keys.
  load_record_payload-some :
      (id : Text) (kind : RecordKind) (r : EncryptedRecord) (value : T) (t : VaultStore D)
      (key : SecretKey) (h : VaultHeader)
      → Quiet t.conn
      → find (has_key id kind) t.conn.records ≡ some r
      → is_some r.deleted_at ≡ false
      → t.master_key ≡ some key
      → t.header ≡ some h
      → decrypt_with lib stored key h.vault_id r ≡ ok value
      → load_record_payload lib stored id kind t ≡ (ok (some value), t)
  unfolding load_record_payload load_found decrypted decrypt_record found_or pure lift gets
  load_record_payload-some id kind r value t key h q f alive k e d =
      bind_ok _ _ t t (some r)
        (sql_lem _ t _ t.conn (load_record-Quiet id kind t.conn q ∙ ap (λ o. (ok o, t.conn)) f))
      ∙ rw alive (
          bind_ok _ _ t t value (
            bind_ok _ _ t t t refl
            ∙ ap (λ x. (x, t)) (decrypt_record_open lib stored _ _ r key h k e ∙ d)))

  -- A value is stored in an unlocked vault, on a database that answers, with a cipher that opens what
  -- it seals, with nonces and a record key of the right lengths and a serde that reads what it
  -- writes: both calls return, and loading the id that the value was given finds the value, with
  -- that id.
  pub load_record_payload-store_record :
      IsCipher lib
      → (value : T) (kind : RecordKind) (draws : WriteDraws) (s : VaultStore D)
        (w : Writes lib stored (with_id stored value draws.uuid) kind draws s)
      → ReadsBack stored (with_id stored value draws.uuid) draws w.payload
      → ((store_record lib stored value kind draws >>= λ written.
            load_record_payload lib stored (stored.record_id written) kind)
          s).0
        ≡ ok (some (with_id stored value draws.uuid))
  unfolding sealed_record with_clock
  load_record_payload-store_record cipher value kind draws s w b =
      let v : T = with_id stored value draws.uuid in
      let t : VaultStore D = written_to lib stored v kind draws s w in
      let h : VaultHeader =
        with_clock (next_clock lib stored v kind draws s w) draws.now w.header in
      ap (λ r. r.0)
        (bind_ok _ _ s t v (store_record_step value kind draws s w)
          ∙ load_record_payload-some (stored.record_id v) kind (new_row lib stored v kind draws s w)
              v t w.master_key h w.quiet
              (find-upsert_row (new_row lib stored v kind draws s w) s.conn.records w.keyed) refl
              w.has_master_key
              (ap (Option.map (with_clock (next_clock lib stored v kind draws s w) draws.now))
                w.has_header)
              (decrypt_with-new_row cipher v kind draws s w b))

  -- A value is stored in an unlocked vault, on a database that answers, with a cipher and a serde that
  -- return: the value comes back with its id, the clock goes up by one, in the database and in
  -- memory, the vault stays unlocked with its key, no other record changes, ids stay unique, and
  -- the record is there at the new clock, waiting to be synced, with the clock that it was last
  -- synced at.
  pub store_record_lem :
      (value : T) (kind : RecordKind) (draws : WriteDraws) (s : VaultStore D)
      (w : Writes lib stored (with_id stored value draws.uuid) kind draws s)
      → let r = store_record lib stored value kind draws s in
        (r.0 ≡ ok (with_id stored value draws.uuid))
        × Wrote
            (stored.record_id (with_id stored value draws.uuid))
            kind
            w.header
            w.stored_header
            draws
            s
            r.1
  unfolding sealed_record
  store_record_lem value kind draws s w =
      let v : T = with_id stored value draws.uuid in
      let new : EncryptedRecord = new_row lib stored v kind draws s w in
      rw (store_record_step value kind draws s w) (
        refl,
        record {
          header =
              ap (Option.map (with_clock (next_clock lib stored v kind draws s w) draws.now))
                w.has_header;
          stored_header = refl;
          master_key = refl;
          keyed = upsert_row-Keyed new s.conn.records w.keyed;
          others = λ other e. row_at-upsert_row other new s.conn.records ∙ rw e refl;
          entry = new;
          has_row =
              row_at-upsert_row (stored.record_id v) new s.conn.records
              ∙ rw (text_refl (stored.record_id v)) refl;
          clock = refl;
          state = refl;
          alive = refl;
          synced_before = refl;
        },
      )
