-- ===== src/Vault/Storage.antt =====
-- The statements of crates/seance-vault/src/storage.rs on the five tables of a vault's database. A
-- row holds what it is read back as. SQLite may refuse any statement: `faults` are its coming
-- answers, true where it does. A u64 from 2 ^ 63 on is no SQL integer and fails to be bound.
pub mod Rows
pub mod Quiet
use mathlib.Core.Option
use seance.Prelude.{
  ℕ, suc, ◌+◌, ◌^◌, Bool, true, false, ◌&&◌, Option, none, some, List, [], ◌∷◌, if◌then◌else◌, ltb,
  leb, ◌==◌, is_empty, is_some, not, length, Text, codes, Result, ok, err, list_beq, nat_eq,
  list_eq,
}
use seance.Prelude.Assoc
use seance.Prelude.SortBy.{retain, sort_by}
use seance.Prelude.Compare.{ℤ, Ord, nat_ord, int_ord, list_ord, then_with, is_le}
use seance.Vault.Exec.{Exec, pure, raise, gets, ok_or, modify, raise_if, ◌>>=◌, ◌>>◌}
use seance.Vault.Model.{
  RecordKind, kind_as_str, KdfParams, VaultHeader, RecoveryBundle, DeviceEnrollment,
  EncryptedRecord, vault_schema_version,
}
use seance.Vault.Failure.{VaultError, database, unsupported_schema_version, corrupt_vault}

pub record Conn : Type 0 where
  pub vault_header : Option VaultHeader
  pub recovery_bundles : List RecoveryBundle
  pub device_enrollments : List DeviceEnrollment
  pub records : List EncryptedRecord
  pub local_state : List (Text × Text)
  pub faults : List Bool

abbrev pub Sql : Type 0 → Type 0
Sql A = Exec VaultError Conn A

unfoldable pub answered : List Bool → Conn → Result VaultError (Unit {0}) × Conn
answered [] c = (ok tt, c)
answered (fault ∷ rest) c = (if fault then err database else ok tt, record c { faults = rest })

-- A statement is sent, and SQLite answers.
unfoldable pub statement : Sql (Unit {0})
unfolding answered
statement c = answered c.faults c

unfoldable pub query : {A : Type 0} → (Conn → A) → Sql A
query f = do statement; gets f

unfoldable pub execute : (Conn → Conn) → Sql (Unit {0})
execute f = do statement; modify f

-- A u64 as a parameter of a statement.
unfoldable pub bind_u64 : ℕ → Sql (Unit {0})
bind_u64 n = raise_if (leb (2 ^ 63) n) database

unfoldable pub bind_option : Option ℕ → Sql (Unit {0})
unfolding bind_u64
bind_option none = pure tt
bind_option (some n) = bind_u64 n

unfoldable pub load_header : Sql (Option VaultHeader)
load_header = query (λ c. c.vault_header)

-- The row with the key 1 is there at most once.
unfoldable pub insert_header : VaultHeader → Sql (Unit {0})
unfolding bind_u64
insert_header header = do
  bind_u64 header.last_logical_clock
  statement
  raise_if (is_some (← gets (λ (c : Conn). c.vault_header))) database
  modify (λ c. record c { vault_header = some header })

unfoldable pub update_header_after_rotation : ℤ → KdfParams → Sql (Unit {0})
update_header_after_rotation updated_at kdf = execute (λ c. record c {
  vault_header =
      Option.map (λ (h : VaultHeader). record h { recovery_kdf = kdf; updated_at = updated_at })
        c.vault_header;
})

unfoldable pub with_clock : ℕ → ℤ → VaultHeader → VaultHeader
with_clock clock now h = record h { last_logical_clock = clock; updated_at = now }

unfoldable pub set_last_logical_clock : ℕ → ℤ → Sql (Unit {0})
unfolding bind_u64 with_clock
set_last_logical_clock clock now = do
  bind_u64 clock
  execute (λ c. record c { vault_header = Option.map (with_clock clock now) c.vault_header })

unfoldable pub bump_logical_clock : ℤ → Sql ℕ
unfolding set_last_logical_clock
bump_logical_clock now = do
  found ← query (λ c. c.vault_header)
  header ← ok_or found database
  set_last_logical_clock (header.last_logical_clock + 1) now
  pure (header.last_logical_clock + 1)

-- Two statements, which no transaction holds together.
unfoldable pub insert_recovery_bundle : RecoveryBundle → Sql (Unit {0})
insert_recovery_bundle bundle = do
  execute (λ c. record c { recovery_bundles = [] })
  execute (λ c. record c { recovery_bundles = bundle ∷ c.recovery_bundles })

unfoldable pub first : {A : Type 0} → List A → Option A
first [] = none
first (x ∷ xs) = some x

unfoldable pub load_recovery_bundle : Sql (Option RecoveryBundle)
unfolding first
load_recovery_bundle = query (λ c. first c.recovery_bundles)

-- The first row that passes a test.
unfoldable pub find : {A : Type 0} → (A → Bool) → List A → Option A
find p [] = none
find p (x ∷ xs) = let rest = find p xs in if p x then some x else rest

-- ON CONFLICT(device_id) DO UPDATE: the time of creation stays.
unfoldable pub upsert_enrollment : DeviceEnrollment → List DeviceEnrollment → List DeviceEnrollment
upsert_enrollment new [] = new ∷ []
upsert_enrollment new (old ∷ rest) =
    if list_beq old.device_id new.device_id
    then record new { created_at = old.created_at } ∷ rest
    else old ∷ upsert_enrollment new rest

unfoldable pub upsert_device_enrollment : DeviceEnrollment → Sql (Unit {0})
unfolding upsert_enrollment
upsert_device_enrollment enrollment =
    execute
      (λ c. record c { device_enrollments = upsert_enrollment enrollment c.device_enrollments })

unfoldable pub load_device_enrollment : Text → Sql (Option DeviceEnrollment)
load_device_enrollment device_id =
    query
      (λ c. find (λ (e : DeviceEnrollment). list_beq e.device_id device_id) c.device_enrollments)

pub used_at : Text → ℤ → List DeviceEnrollment → List DeviceEnrollment
used_at device_id timestamp [] = []
used_at device_id timestamp (e ∷ rest) =
    (if list_beq e.device_id device_id then record e { last_used_at = timestamp } else e)
    ∷ used_at device_id timestamp rest

unfoldable pub update_device_last_used : Text → ℤ → Sql (Unit {0})
unfolding used_at
update_device_last_used device_id timestamp =
    execute
      (λ c. record c { device_enrollments = used_at device_id timestamp c.device_enrollments })

unfoldable pub list_device_enrollments : Sql (List DeviceEnrollment)
list_device_enrollments = query (λ c.
    sort_by
      (λ (a b : DeviceEnrollment). is_le (
        then_with (int_ord.cmp a.created_at b.created_at)
          ((list_ord {A = ℕ}).cmp a.device_id b.device_id)))
      c.device_enrollments)

unfoldable pub clear_device_enrollments : Sql (Unit {0})
clear_device_enrollments = execute (λ c. record c { device_enrollments = [] })

unfoldable pub set_local_state : Text → Text → Sql (Unit {0})
set_local_state key value =
    execute (λ c. record c { local_state = Assoc.insert key value c.local_state })

unfoldable pub get_local_state : Text → Sql (Option Text)
get_local_state key = query (λ c. Assoc.lookup key c.local_state)

unfoldable pub delete_local_state : Text → Sql (Unit {0})
delete_local_state key = execute (λ c. record c { local_state = Assoc.remove key c.local_state })

-- ON CONFLICT(record_id) DO UPDATE: every other column is overwritten.
unfoldable pub upsert_row : EncryptedRecord → List EncryptedRecord → List EncryptedRecord
upsert_row new [] = new ∷ []
upsert_row new (old ∷ rest) =
    if list_beq old.record_id new.record_id then new ∷ rest else old ∷ upsert_row new rest

unfoldable pub upsert_record : EncryptedRecord → Sql (Unit {0})
unfolding bind_u64 bind_option
upsert_record r = do
  bind_u64 r.logical_clock
  bind_option r.last_synced_clock
  execute (λ c. record c { records = upsert_row r c.records })

abbrev pub same_kind : RecordKind → RecordKind → Bool
same_kind j k = list_beq (kind_as_str j) (kind_as_str k)

unfoldable pub is_active : RecordKind → EncryptedRecord → Bool
is_active kind r = same_kind r.kind kind && not (is_some r.deleted_at)

-- ORDER BY modified_at DESC
unfoldable pub newest_first : List EncryptedRecord → List EncryptedRecord
newest_first = sort_by (λ (a b : EncryptedRecord). is_le (int_ord.cmp b.modified_at a.modified_at))

unfoldable pub list_records_by_kind : RecordKind → Sql (List EncryptedRecord)
unfolding newest_first is_active
list_records_by_kind kind = query (λ c. newest_first (retain (is_active kind) c.records))

unfoldable pub has_key : Text → RecordKind → EncryptedRecord → Bool
has_key record_id kind r = list_beq r.record_id record_id && same_kind r.kind kind

unfoldable pub load_record : Text → RecordKind → Sql (Option EncryptedRecord)
unfolding has_key find
load_record record_id kind = query (λ c. find (has_key record_id kind) c.records)

-- ORDER BY logical_clock ASC, record_id ASC
unfoldable pub oldest_first : List EncryptedRecord → List EncryptedRecord
oldest_first = sort_by (λ (a b : EncryptedRecord). is_le (
    then_with (nat_ord.cmp a.logical_clock b.logical_clock)
      ((list_ord {A = ℕ}).cmp a.record_id b.record_id)))

unfoldable pub list_all_records : Sql (List EncryptedRecord)
unfolding oldest_first
list_all_records = query (λ c. oldest_first c.records)

unfoldable pub list_records_after_clock : ℕ → Sql (List EncryptedRecord)
unfolding oldest_first bind_u64
list_records_after_clock clock = do
  bind_u64 clock
  query (λ c. oldest_first (retain (λ (r : EncryptedRecord). ltb clock r.logical_clock) c.records))

unfoldable pub count_records : Sql ℕ
count_records = query (λ c. length c.records)

unfoldable pub verify_header_integrity : VaultHeader → Result VaultError (Unit {0})
verify_header_integrity header =
    if not (header.schema_version == vault_schema_version)
    then err (unsupported_schema_version header.schema_version)
    else if is_empty header.vault_id
    then err (corrupt_vault (codes "vault header is missing the vault id"))
    else if is_empty header.recovery_kdf.salt
    then err (corrupt_vault (codes "vault header is missing the recovery salt"))
    else ok tt
