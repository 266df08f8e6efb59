-- ===== src/Vault/Sync.antt =====
-- Exchange of records between devices, in crates/seance-vault/src/lib.rs: snapshots, deltas and the
-- precedence by which one version of a record replaces another.
pub mod Precedence
pub mod Merge
pub mod Newest
pub mod Applied
pub mod Refines
pub mod Exchange
pub mod Covers
pub mod Again
pub mod Export
pub mod Tests
use Prim.Native.Nat.{Ordering}
use mathlib.Core.Option
use seance.Prelude.{
  ℕ, ◌+◌, ◌-◌, min, max, Bool, true, false, not, Option, none, some, List, [], ◌∷◌, map,
  if◌then◌else◌, ltb, is_some, Text, codes, list_beq, nat_eq, list_eq, Result, ok, err,
}
use seance.Prelude.Compare.{ℤ, Ord, nat_ord, int_ord, option_ord, list_ord, then_with, is_le}
use seance.Vault.Exec.{
  Exec, pure, raise, lift, gets, ok_or, modify, raise_if, ◌>>=◌, ◌>>◌, for_each,
}
use seance.Vault.Model.{
  Bytes, VaultHeader, EncryptedRecord, VaultDeltaRecord, VaultSnapshot, VaultDelta, SyncCursor,
  ApplyDeltaReport, synced, delta_record,
}
use seance.Vault.Failure.{
  VaultError, vault_not_initialized, corrupt_vault, sync_bootstrap_required,
  snapshot_requires_uninitialized_vault, vault_id_mismatch, delta_out_of_order,
}
use seance.Vault.Storage.{
  verify_header_integrity, insert_header, insert_recovery_bundle, load_recovery_bundle,
  clear_device_enrollments, upsert_device_enrollment, list_device_enrollments, list_all_records,
  list_records_after_clock, load_record, upsert_record, count_records, set_last_logical_clock,
  with_clock,
}
use seance.Vault.Session.{VaultStore, Method, sql, get_header}
use seance.Vault.Passphrase.{get_bundle}

unfoldable pub delta_record_to_synced_record : VaultDeltaRecord → EncryptedRecord
delta_record_to_synced_record r = record {
  record_id = r.record_id;
  kind = r.kind;
  version = r.version;
  logical_clock = r.logical_clock;
  modified_at = r.modified_at;
  deleted_at = r.deleted_at;
  key_nonce = r.key_nonce;
  wrapped_record_key = r.wrapped_record_key;
  payload_nonce = r.payload_nonce;
  payload_ciphertext = r.payload_ciphertext;
  last_synced_clock = some r.logical_clock;
  sync_state = synced;
}

unfoldable pub compare_record_precedence : EncryptedRecord → EncryptedRecord → Ordering
compare_record_precedence l r = then_with (nat_ord.cmp l.logical_clock r.logical_clock) (
    then_with (int_ord.cmp l.modified_at r.modified_at) (
      then_with ((list_ord {A = ℕ}).cmp l.record_id r.record_id) (
        then_with ((option_ord {A = ℤ}).cmp l.deleted_at r.deleted_at) (
          then_with ((list_ord {A = ℕ}).cmp l.key_nonce r.key_nonce) (
            then_with ((list_ord {A = ℕ}).cmp l.wrapped_record_key r.wrapped_record_key) (
              then_with ((list_ord {A = ℕ}).cmp l.payload_nonce r.payload_nonce)
                ((list_ord {A = ℕ}).cmp l.payload_ciphertext r.payload_ciphertext)))))))

-- The guard of the first arm: whether the record that is there stays.
unfoldable pub keeps_existing : EncryptedRecord → Option EncryptedRecord → Bool
unfolding compare_record_precedence
keeps_existing incoming none = false
keeps_existing incoming (some existing) = is_le (compare_record_precedence incoming existing)

-- The three variables of the loop of apply_delta.
pub record Tally : Type 0 where
  pub applied : ℕ
  pub skipped : ℕ
  pub cursor : ℕ

-- Iterator::max, 0 where there is nothing.
pub max_clock : List VaultDeltaRecord → ℕ
max_clock [] = 0
max_clock (r ∷ rest) = max r.logical_clock (max_clock rest)

unfoldable pub raised_header : VaultSnapshot → VaultHeader
unfolding max_clock
raised_header snapshot =
    if ltb snapshot.header.last_logical_clock (max_clock snapshot.records)
    then record snapshot.header { last_logical_clock = max_clock snapshot.records }
    else snapshot.header

clock_of : Option VaultHeader → ℕ
clock_of none = 0
clock_of (some header) = header.last_logical_clock

unfoldable pub current_cursor : {D : Type 0} → VaultStore D → SyncCursor
unfolding clock_of
current_cursor s = record { logical_clock = clock_of s.header }

module _ {D : Type 0} where
  unfoldable pub export_snapshot : Method D VaultSnapshot
  unfolding get_header get_bundle
  export_snapshot = do
    header ← get_header vault_not_initialized
    recovery_bundle ← get_bundle
    device_enrollments ← sql list_device_enrollments
    records ← sql list_all_records
    pure (record {
      header = header;
      recovery_bundle = recovery_bundle;
      device_enrollments = device_enrollments;
      records = map delta_record records;
    })

  unfoldable pub export_delta : SyncCursor → Method D VaultDelta
  unfolding get_header
  export_delta since = do
    header ← get_header vault_not_initialized
    records ← sql (list_records_after_clock (min since.logical_clock header.last_logical_clock))
    pure (record {
      vault_id = header.vault_id;
      from_clock = min since.logical_clock header.last_logical_clock;
      to_clock = header.last_logical_clock;
      records = map delta_record records;
    })

  -- `||`: the records are counted only where there is no header.
  unfoldable pub occupied : Option VaultHeader → Method D Bool
  occupied (some header) = pure true
  occupied none = do count ← sql count_records; pure (ltb 0 count)

  unfoldable pub apply_snapshot : VaultSnapshot → Method D (Unit {0})
  unfolding occupied raised_header
  apply_snapshot snapshot = do
    header ← gets (λ s. s.header)
    full ← occupied header
    raise_if full snapshot_requires_uninitialized_vault
    lift (verify_header_integrity snapshot.header)
    sql (insert_header (raised_header snapshot))
    sql (insert_recovery_bundle snapshot.recovery_bundle)
    sql clear_device_enrollments
    for_each snapshot.device_enrollments (λ e. sql (upsert_device_enrollment e))
    for_each snapshot.records (λ r. sql (upsert_record (delta_record_to_synced_record r)))
    modify (λ s. record s { header = some (raised_header snapshot) })

  -- The arms of the match on the record that is there.
  unfoldable pub settle : EncryptedRecord → Tally → Option EncryptedRecord → Method D Tally
  settle incoming tally found =
      if keeps_existing incoming found
      then pure (record tally { skipped = tally.skipped + 1 })
      else (do sql (upsert_record incoming); pure (record tally { applied = tally.applied + 1 }))

  -- The body of the loop of apply_delta.
  unfoldable pub apply_record : VaultDeltaRecord → Tally → Method D Tally
  unfolding settle
  apply_record r tally = do
    found ← sql (load_record r.record_id r.kind)
    settle (delta_record_to_synced_record r)
        (record tally { cursor = max tally.cursor r.logical_clock }) found

  unfoldable pub apply_records : List VaultDeltaRecord → Tally → Method D Tally
  unfolding apply_record
  apply_records [] tally = pure tally
  apply_records (r ∷ rest) tally = do next ← apply_record r tally; apply_records rest next

  -- The end of apply_delta: the clock goes up in the database, then in memory.
  unfoldable pub set_clock : ℕ → ℤ → ℤ → Method D (Unit {0})
  set_clock clock written_at now = do
    sql (set_last_logical_clock clock written_at)
    modify (λ s. record s { header = Option.map (with_clock clock now) s.header })

  unfoldable pub apply_delta : VaultDelta → ℤ → ℤ → Method D ApplyDeltaReport
  unfolding get_header set_clock
  apply_delta delta written_at now = do
    header ← get_header sync_bootstrap_required
    raise_if (not (list_beq delta.vault_id header.vault_id))
        (vault_id_mismatch header.vault_id delta.vault_id)
    local_cursor ← gets (λ s. (current_cursor s).logical_clock)
    raise_if (ltb local_cursor delta.from_clock) (delta_out_of_order local_cursor delta.from_clock)
    tally ←
        apply_records delta.records
          (record { applied = 0; skipped = 0; cursor = max local_cursor delta.to_clock })
    set_clock tally.cursor written_at now
    pure (record {
      applied_records = tally.applied;
      skipped_records = tally.skipped;
      new_cursor = record { logical_clock = tally.cursor };
    })
