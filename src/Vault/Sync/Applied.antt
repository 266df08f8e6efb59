-- ===== src/Vault/Sync/Applied.antt =====
-- apply_delta of crates/seance-vault/src/lib.rs on a database that answers: its rows
-- and its counters, one record at a time.
use mathlib.Core.Option
use mathlib.Core.Path.{fun_ext}
use seance.Prelude.{
  ℕ, ◌+◌, max, Bool, Option, List, [], ◌∷◌, if◌then◌else◌, length, Text, nat_eq, list_eq,
  list_beq_iff, All, ok, ◌≡◌, refl, ap, ◌∙◌, inl, inr, arith, Bool-cases,
}
use seance.Prelude.Compare.{ℤ}
use seance.Vault.Exec.{pure, modify, ◌>>=◌, bind_ok}
use seance.Vault.Model.{EncryptedRecord, VaultDeltaRecord}
use seance.Vault.Storage.{Conn, find, has_key, upsert_row, with_clock}
use seance.Vault.Storage.Rows.{row_at, Keyed, find-has_key, row_at-upsert_row, upsert_row-Keyed}
use seance.Vault.Storage.Quiet.{
  Fits, OptionFits, Quiet, load_record-Quiet, upsert_record-Quiet, set_last_logical_clock-Quiet,
}
use seance.Vault.Session.{VaultStore}
use seance.Vault.Session.Ready.{sql_lem}
use seance.Vault.Sync.{
  delta_record_to_synced_record, keeps_existing, Tally, settle, apply_record, apply_records,
  set_clock,
}
use seance.Vault.Sync.Merge.{Replica, join, merge_record, merge}

abbrev pub AllFit : List VaultDeltaRecord → Type 0
AllFit = All (λ (r : VaultDeltaRecord). Fits r.logical_clock)

abbrev pub with_records : List EncryptedRecord → Conn → Conn
with_records rows c = record c { records = rows }

-- Whether a record that comes in is skipped.
abbrev pub skips : VaultDeltaRecord → List EncryptedRecord → Bool
skips r rows =
    keeps_existing (delta_record_to_synced_record r) (find (has_key r.record_id r.kind) rows)

abbrev pub rows_after : VaultDeltaRecord → List EncryptedRecord → List EncryptedRecord
rows_after r rows = if skips r rows then rows else upsert_row (delta_record_to_synced_record r) rows

abbrev pub tally_after : VaultDeltaRecord → List EncryptedRecord → Tally → Tally
tally_after r rows tally =
    if skips r rows
    then record tally { cursor = max tally.cursor r.logical_clock; skipped = tally.skipped + 1 }
    else record tally { cursor = max tally.cursor r.logical_clock; applied = tally.applied + 1 }

abbrev pub rows_all : List VaultDeltaRecord → List EncryptedRecord → List EncryptedRecord
rows_all [] rows = rows
rows_all (r ∷ rest) rows = rows_all rest (rows_after r rows)

abbrev pub tally_all : List VaultDeltaRecord → List EncryptedRecord → Tally → Tally
tally_all [] rows tally = tally
tally_all (r ∷ rest) rows tally = tally_all rest (rows_after r rows) (tally_after r rows tally)

pub rows_after-Keyed :
    (r : VaultDeltaRecord) (rows : List EncryptedRecord) → Keyed rows → Keyed (rows_after r rows)
rows_after-Keyed r rows k = elim (Bool-cases (skips r rows)) [
  | inl skip ↦ rw skip k
  | inr apply ↦ rw apply (upsert_row-Keyed (delta_record_to_synced_record r) rows k)
]

pub rows_all-Keyed :
    (rs : List VaultDeltaRecord) (rows : List EncryptedRecord)
    → Keyed rows
    → Keyed (rows_all rs rows)
rows_all-Keyed [] rows k = k
rows_all-Keyed (r ∷ rest) rows k =
    rows_all-Keyed rest (rows_after r rows) (rows_after-Keyed r rows k)

pub row_at-rows_after :
    (r : VaultDeltaRecord) (rows : List EncryptedRecord) (id : Text)
    → Keyed rows
    → row_at id (rows_after r rows) ≡ merge_record r (λ j. row_at j rows) id
unfolding merge_record join delta_record_to_synced_record
row_at-rows_after r rows id k = ground (
  arith,
  find-has_key r.record_id r.kind rows k,
  list_beq_iff r.record_id id,
  row_at-upsert_row id (delta_record_to_synced_record r) rows,
)

pub row_at-rows_all :
    (rs : List VaultDeltaRecord) (rows : List EncryptedRecord) (id : Text)
    → Keyed rows
    → row_at id (rows_all rs rows) ≡ merge rs (λ j. row_at j rows) id
unfolding merge
row_at-rows_all [] rows id k = refl
row_at-rows_all (r ∷ rest) rows id k =
    row_at-rows_all rest (rows_after r rows) id (rows_after-Keyed r rows k)
    ∙ ap (λ f. merge rest f id) (fun_ext (λ j. row_at-rows_after r rows j k))

pub tally_all-count :
    (rs : List VaultDeltaRecord) (rows : List EncryptedRecord) (tally : Tally)
    → (tally_all rs rows tally).applied + (tally_all rs rows tally).skipped
      ≡ tally.applied + tally.skipped + length rs
tally_all-count [] rows tally = omega arith
tally_all-count (r ∷ rest) rows tally =
    ground (arith, tally_all-count rest (rows_after r rows) (tally_after r rows tally))

-- The clock that the device ends with.
abbrev pub highest : ℕ → List VaultDeltaRecord → ℕ
highest n [] = n
highest n (r ∷ rest) = highest (max n r.logical_clock) rest

pub tally_all-cursor :
    (rs : List VaultDeltaRecord) (rows : List EncryptedRecord) (tally : Tally)
    → (tally_all rs rows tally).cursor ≡ highest tally.cursor rs
tally_all-cursor [] rows tally = refl
tally_all-cursor (r ∷ rest) rows tally =
    tally_all-cursor rest (rows_after r rows) (tally_after r rows tally)
    ∙ ap (λ n. highest n rest)
        (elim (Bool-cases (skips r rows)) [ inl e ↦ rw e refl | inr e ↦ rw e refl ])

pub highest-Fits : (n : ℕ) (rs : List VaultDeltaRecord) → Fits n → AllFit rs → Fits (highest n rs)
highest-Fits n [] f h = f
highest-Fits n (r ∷ rest) f h = highest-Fits (max n r.logical_clock) rest (omega arith) h.1

module _ {D : Type 0} where
  abbrev pub in_rows : List EncryptedRecord → VaultStore D → VaultStore D
  in_rows rows s = record s { conn = with_records rows s.conn }

  -- What the vault's device knows.
  abbrev pub known : VaultStore D → Replica
  known s id = row_at id s.conn.records

  settle-Quiet :
      (r : EncryptedRecord) (tally : Tally) (found : Option EncryptedRecord) (s : VaultStore D)
      → Quiet s.conn
      → Fits r.logical_clock
      → OptionFits r.last_synced_clock
      → settle r tally found s ≡ (
        ok (
            if keeps_existing r found
            then record tally { skipped = tally.skipped + 1 }
            else record tally { applied = tally.applied + 1 }),
        in_rows (if keeps_existing r found then s.conn.records else upsert_row r s.conn.records) s,
      )
  unfolding settle pure
  settle-Quiet r tally found s q f g = elim (Bool-cases (keeps_existing r found)) [
    | inl skip ↦ rw skip refl
    | inr apply ↦
        rw apply (bind_ok _ _ s _ tt (sql_lem _ s _ _ (upsert_record-Quiet r s.conn q f g)))
  ]

  apply_record-Quiet :
      (r : VaultDeltaRecord) (tally : Tally) (s : VaultStore D)
      → Quiet s.conn
      → Fits r.logical_clock
      → apply_record r tally s
        ≡ (ok (tally_after r s.conn.records tally), in_rows (rows_after r s.conn.records) s)
  unfolding apply_record
  apply_record-Quiet r tally s q f =
      bind_ok _ _ s s (find (has_key r.record_id r.kind) s.conn.records)
        (sql_lem _ s _ s.conn (load_record-Quiet r.record_id r.kind s.conn q))
      ∙ settle-Quiet (delta_record_to_synced_record r)
          (record tally { cursor = max tally.cursor r.logical_clock })
          (find (has_key r.record_id r.kind) s.conn.records) s q
          (unfold delta_record_to_synced_record in f) (unfold delta_record_to_synced_record in f)

  pub apply_records-Quiet :
      (rs : List VaultDeltaRecord) (tally : Tally) (s : VaultStore D)
      → Quiet s.conn
      → AllFit rs
      → apply_records rs tally s
        ≡ (ok (tally_all rs s.conn.records tally), in_rows (rows_all rs s.conn.records) s)
  unfolding apply_records ◌>>=◌
  apply_records-Quiet [] tally s q f = refl
  apply_records-Quiet (r ∷ rest) tally s q f = rw (apply_record-Quiet r tally s q f.0) (
      apply_records-Quiet rest (tally_after r s.conn.records tally)
        (in_rows (rows_after r s.conn.records) s) q f.1)

  pub set_clock-Quiet :
      (clock : ℕ) (written_at now : ℤ) (s : VaultStore D)
      → Quiet s.conn
      → Fits clock
      → set_clock clock written_at now s ≡ (
        ok tt,
        record s {
          conn = record s.conn {
            vault_header = Option.map (with_clock clock written_at) s.conn.vault_header;
          };
          header = Option.map (with_clock clock now) s.header;
        },
      )
  unfolding set_clock modify
  set_clock-Quiet clock written_at now s q f =
      bind_ok _ _ s _ tt
        (sql_lem _ s _ _ (set_last_logical_clock-Quiet clock written_at s.conn q f))
