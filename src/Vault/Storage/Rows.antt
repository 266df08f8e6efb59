-- ===== src/Vault/Storage/Rows.antt =====
-- The table of records in crates/seance-vault/src/storage.rs, read by the id of a record.
use seance.Prelude.{
  Option, none, some, List, [], ◌∷◌, if◌then◌else◌, Text, list_beq, list_beq_iff, nat_eq, list_eq,
  ◌≡◌, refl, arith,
}
use seance.Vault.Model.{RecordKind, EncryptedRecord}
use seance.Vault.Storage.{find, upsert_row, has_key, same_kind}

-- The row with an id, whatever its kind.
unfoldable pub row_at : Text → List EncryptedRecord → Option EncryptedRecord
row_at id [] = none
row_at id (r ∷ rest) =
    let other = row_at id rest in if list_beq r.record_id id then some r else other

-- No id stands twice: it is the primary key.
abbrev pub Keyed : List EncryptedRecord → Type 0
Keyed [] = Unit
Keyed (r ∷ rest) = (row_at r.record_id rest ≡ none) × Keyed rest

abbrev pub of_kind : RecordKind → Option EncryptedRecord → Option EncryptedRecord
of_kind kind none = none
of_kind kind (some r) = if same_kind r.kind kind then some r else none

pub row_at-upsert_row :
    (j : Text) (new : EncryptedRecord) (rows : List EncryptedRecord)
    → row_at j (upsert_row new rows)
      ≡ (if list_beq new.record_id j then some new else row_at j rows)
unfolding row_at upsert_row
row_at-upsert_row j new [] = refl
row_at-upsert_row j new (old ∷ rest) = ground (
  arith,
  list_beq_iff new.record_id j,
  list_beq_iff old.record_id new.record_id,
  list_beq_iff old.record_id j,
  row_at-upsert_row j new rest,
)

pub upsert_row-Keyed :
    (new : EncryptedRecord) (rows : List EncryptedRecord) → Keyed rows → Keyed (upsert_row new rows)
unfolding upsert_row
upsert_row-Keyed new [] h = (unfold row_at in refl, tt)
upsert_row-Keyed new (old ∷ rest) h = ground (
  arith,
  upsert_row-Keyed new rest h.1,
  row_at-upsert_row old.record_id new rest,
  list_beq_iff old.record_id new.record_id,
  list_beq_iff new.record_id old.record_id,
)

of_kind-none :
    (id : Text) (kind : RecordKind) (rows : List EncryptedRecord)
    → row_at id rows ≡ none
    → find (has_key id kind) rows ≡ none
unfolding row_at find has_key
of_kind-none id kind [] h = refl
of_kind-none id kind (r ∷ rest) h = ground (arith, of_kind-none id kind rest)

-- Where no id stands twice, a row is found by its id and then checked for its kind.
pub find-has_key :
    (id : Text) (kind : RecordKind) (rows : List EncryptedRecord)
    → Keyed rows
    → find (has_key id kind) rows ≡ of_kind kind (row_at id rows)
unfolding row_at find has_key
find-has_key id kind [] h = refl
find-has_key id kind (r ∷ rest) h =
    ground
      (arith, find-has_key id kind rest h.1, list_beq_iff r.record_id id, of_kind-none id kind rest)
