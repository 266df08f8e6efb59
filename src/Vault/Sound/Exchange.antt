-- ===== src/Vault/Sound/Exchange.antt =====
-- Snapshots and deltas, in crates/seance-vault/src/lib.rs, on a sound vault.
use seance.Prelude.{true, Option, none, some, List, [], ◌∷◌, refl}
use seance.Prelude.Compare.{ℤ}
use seance.Vault.Exec.Keeps.{
  Keeps, Keeps-pure, Keeps-lift, Keeps-gets, Keeps-if, Keeps-raise_if, Keeps-bind, Keeps-for_each,
}
use seance.Vault.Model.{
  VaultHeader, EncryptedRecord, VaultDeltaRecord, VaultSnapshot, VaultDelta, SyncCursor,
}
use seance.Vault.Storage.{
  list_device_enrollments, list_all_records, list_records_after_clock, load_record, count_records,
  clear_device_enrollments, upsert_device_enrollment, upsert_record,
}
use seance.Vault.Session.{sql}
use seance.Vault.Sync.{
  delta_record_to_synced_record, Tally, occupied, export_snapshot, export_delta, apply_snapshot,
  settle, apply_record, apply_records, set_clock, apply_delta,
}
use seance.Vault.Sound.{SyncedAt, IsSound}
use seance.Vault.Sound.Statements.{
  query-Sound, elsewhere-Sound, bind_u64-Sound, upsert_record-Sound, insert_header-Sound,
  insert_recovery_bundle-Sound, set_last_logical_clock-Sound,
}
use seance.Vault.Sound.Unlocking.{
  sql-Sound, asked-Sound, header-Sound, get_header-Sound, get_bundle-Sound,
}

-- What comes from another device is marked as synced at its own clock.
delta_record-SyncedAt :
    (r : VaultDeltaRecord)
    → SyncedAt (delta_record_to_synced_record r).sync_state (delta_record_to_synced_record r)
unfolding delta_record_to_synced_record
delta_record-SyncedAt r = refl

module _ {D : Type 0} where
  pub export_snapshot-Sound : Keeps (IsSound {D = D}) export_snapshot
  unfolding export_snapshot list_device_enrollments list_all_records
  export_snapshot-Sound = Keeps-bind _ _ (get_header-Sound _) (λ header.
      Keeps-bind _ _ get_bundle-Sound (λ bundle.
        Keeps-bind _ _ (asked-Sound _)
          (λ enrollments. Keeps-bind _ _ (asked-Sound _) (λ records. Keeps-pure _))))

  pub export_delta-Sound : (since : SyncCursor) → Keeps (IsSound {D = D}) (export_delta since)
  unfolding export_delta list_records_after_clock
  export_delta-Sound since = Keeps-bind _ _ (get_header-Sound _) (λ header.
      Keeps-bind _ _ (sql-Sound _ (Keeps-bind _ _ (bind_u64-Sound _) (λ u. query-Sound _)))
        (λ records. Keeps-pure _))

  occupied-Sound : (header : Option VaultHeader) → Keeps (IsSound {D = D}) (occupied header)
  unfolding occupied count_records
  occupied-Sound (some header) = Keeps-pure true
  occupied-Sound none = Keeps-bind _ _ (asked-Sound _) (λ count. Keeps-pure _)

  upsert-Sound :
      (r : VaultDeltaRecord)
      → Keeps (IsSound {D = D}) (sql (upsert_record (delta_record_to_synced_record r)))
  upsert-Sound r = sql-Sound _ (upsert_record-Sound _ (delta_record-SyncedAt r))

  pub apply_snapshot-Sound :
      (snapshot : VaultSnapshot) → Keeps (IsSound {D = D}) (apply_snapshot snapshot)
  unfolding apply_snapshot clear_device_enrollments upsert_device_enrollment
  apply_snapshot-Sound snapshot = Keeps-bind _ _ (Keeps-gets _) (λ header.
      Keeps-bind _ _ (occupied-Sound header) (λ full. Keeps-bind _ _ (Keeps-raise_if _ _) (λ a.
        Keeps-bind _ _ (Keeps-lift _) (λ b.
          Keeps-bind _ _ (sql-Sound _ (insert_header-Sound _)) (λ c.
            Keeps-bind _ _ (sql-Sound _ (insert_recovery_bundle-Sound _)) (λ d.
              Keeps-bind _ _ (sql-Sound _ (elsewhere-Sound _ (λ c. refl) (λ c. refl))) (λ e.
                Keeps-bind _ _
                  (Keeps-for_each _ _
                    (λ x. sql-Sound _ (elsewhere-Sound _ (λ c. refl) (λ c. refl))))
                  (λ f.
                    Keeps-bind _ _ (Keeps-for_each _ _ upsert-Sound) (λ g. header-Sound _)))))))))

  settle-Sound :
      (r : VaultDeltaRecord) (tally : Tally) (found : Option EncryptedRecord)
      → Keeps (IsSound {D = D}) (settle (delta_record_to_synced_record r) tally found)
  unfolding settle
  settle-Sound r tally found =
      Keeps-if _ _ _ (Keeps-pure _) (Keeps-bind _ _ (upsert-Sound r) (λ u. Keeps-pure _))

  apply_records-Sound :
      (rs : List VaultDeltaRecord) (tally : Tally)
      → Keeps (IsSound {D = D}) (apply_records rs tally)
  unfolding apply_records apply_record load_record
  apply_records-Sound [] tally = Keeps-pure tally
  apply_records-Sound (r ∷ rest) tally =
      Keeps-bind _ _ (Keeps-bind _ _ (asked-Sound _) (λ found. settle-Sound r _ found))
        (λ next. apply_records-Sound rest next)

  pub apply_delta-Sound :
      (delta : VaultDelta) (written_at now : ℤ)
      → Keeps (IsSound {D = D}) (apply_delta delta written_at now)
  unfolding apply_delta set_clock
  apply_delta-Sound delta written_at now = Keeps-bind _ _ (get_header-Sound _) (λ header.
      Keeps-bind _ _ (Keeps-raise_if _ _) (λ a. Keeps-bind _ _ (Keeps-gets _) (λ cursor.
        Keeps-bind _ _ (Keeps-raise_if _ _) (λ b.
          Keeps-bind _ _ (apply_records-Sound delta.records _) (λ tally.
            Keeps-bind _ _
              (Keeps-bind _ _ (sql-Sound _ (set_last_logical_clock-Sound _ _))
                (λ u. header-Sound _))
              (λ c. Keeps-pure _))))))
