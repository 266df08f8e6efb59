-- ===== src/Vault/Sync/Tests.antt =====
-- Devices and deltas on which the exchange of records in crates/seance-vault/src/lib.rs is run.
use seance.Prelude.{
  ℕ, true, none, some, List, [], ◌∷◌, Text, codes, length, ok, ◌≡◌, refl, arith, list_beq, nat_eq,
  list_eq, All, inl, inr, Bool-cases, min,
}
use seance.Prelude.Compare.{pos}
use seance.Vault.Model.{
  RecordKind, host_kind, kind_as_str, KdfParams, VaultHeader, EncryptedRecord, pending, VaultDelta,
  delta_record,
}
use seance.Vault.Storage.{same_kind}
use seance.Vault.Storage.Rows.{row_at}
use seance.Vault.Session.{VaultStore}
use seance.Vault.Sync.{apply_delta, export_delta, current_cursor}
use seance.Vault.Sync.Merge.{AllTyped, Typed, ReplicaTyped, rank_of}
use seance.Vault.Sync.Applied.{known}
use seance.Vault.Sync.Refines.{Takes, Merges, apply_delta-Merges}
use seance.Vault.Sync.Exchange.{after, both, apply_delta_comm}
use seance.Vault.Sync.Again.{touched_store, apply_delta_twice}
use seance.Vault.Sync.Export.{Sends, Receives, sent, apply_delta-export_delta}

abbrev params : KdfParams
params = record { salt = 7 ∷ []; memory_kib = 131072; iterations = 4; parallelism = 4 }

abbrev header_at : ℕ → VaultHeader
header_at clock = record {
  vault_id = codes "v";
  schema_version = 1;
  cipher = codes "xchacha20poly1305";
  recovery_kdf = params;
  created_at = pos 1;
  updated_at = pos 1;
  last_logical_clock = clock;
}

-- A version of a host, sealed by bytes that nobody reads here.
abbrev version : Text → ℕ → EncryptedRecord
version id clock = record {
  record_id = id;
  kind = host_kind;
  version = 1;
  logical_clock = clock;
  modified_at = pos clock;
  deleted_at = none;
  key_nonce = 1 ∷ [];
  wrapped_record_key = 2 ∷ [];
  payload_nonce = 3 ∷ [];
  payload_ciphertext = clock ∷ [];
  last_synced_clock = none;
  sync_state = pending;
}

abbrev vault_with : ℕ → List EncryptedRecord → VaultStore ℕ
vault_with clock rows = record {
  vault_path = codes "vault.db";
  conn = record {
    vault_header = some (header_at clock);
    recovery_bundles = [];
    device_enrollments = [];
    records = rows;
    local_state = [];
    faults = [];
  };
  header = some (header_at clock);
  device_store = 0;
  master_key = none;
  last_unlock_method = none;
}

-- It knows two hosts; the other device has a later version of one of them, and a third host.
abbrev laptop : VaultStore ℕ
laptop = vault_with 4 (version (codes "a") 2 ∷ version (codes "b") 4 ∷ [])

abbrev desktop : VaultStore ℕ
desktop = vault_with 5 (version (codes "a") 3 ∷ version (codes "c") 5 ∷ [])

abbrev newer : VaultDelta
newer = record {
  vault_id = codes "v";
  from_clock = 0;
  to_clock = 5;
  records = delta_record (version (codes "a") 3) ∷ delta_record (version (codes "c") 5) ∷ [];
}

abbrev other : VaultDelta
other = record {
  vault_id = codes "v";
  from_clock = 2;
  to_clock = 6;
  records = delta_record (version (codes "a") 6) ∷ delta_record (version (codes "b") 1) ∷ [];
}

newer-Takes : Takes laptop (header_at 4) newer
unfolding row_at delta_record list_beq
newer-Takes = record {
  quiet = refl;
  keyed = (refl, (refl, tt));
  opened = refl;
  same_vault = refl;
  in_order = omega arith;
  clock_fits = omega arith;
  end_fits = omega arith;
  all_fit = (omega arith, (omega arith, tt));
}

other-Takes : Takes laptop (header_at 4) other
unfolding row_at delta_record list_beq
other-Takes = record {
  quiet = refl;
  keyed = (refl, (refl, tt));
  opened = refl;
  same_vault = refl;
  in_order = omega arith;
  clock_fits = omega arith;
  end_fits = omega arith;
  all_fit = (omega arith, (omega arith, tt));
}

abbrev hosts_only : Text → RecordKind
hosts_only id = host_kind

row_at-Typed :
    (rows : List EncryptedRecord) (id : Text)
    → All (λ (r : EncryptedRecord). same_kind r.kind host_kind ≡ true) rows
    → Typed hosts_only (row_at id rows) id
unfolding row_at
row_at-Typed [] id h = tt
row_at-Typed (r ∷ rest) id h = elim (Bool-cases (list_beq r.record_id id)) [
  | inl own ↦ rw own h.0
  | inr not_own ↦ rw not_own (row_at-Typed rest id h.1)
]

hosts_typed : same_kind host_kind host_kind ≡ true
unfolding kind_as_str list_beq
hosts_typed = refl

newer-AllTyped : AllTyped hosts_only newer.records
unfolding delta_record
newer-AllTyped = (hosts_typed, (hosts_typed, tt))

other-AllTyped : AllTyped hosts_only other.records
unfolding delta_record
other-AllTyped = (hosts_typed, (hosts_typed, tt))

laptop-Typed : ReplicaTyped hosts_only (known laptop)
laptop-Typed id = row_at-Typed laptop.conn.records id (hosts_typed, (hosts_typed, tt))

apply_delta-Merges_example :
    Merges laptop (header_at 4) newer (pos 8) (pos 9) (apply_delta newer (pos 8) (pos 9) laptop)
apply_delta-Merges_example =
    apply_delta-Merges hosts_only laptop (header_at 4) newer (pos 8) (pos 9) newer-Takes
      newer-AllTyped laptop-Typed

apply_delta_comm_example :
    rank_of (known (both laptop newer other (pos 8) (pos 9)) (codes "a"))
    ≡ rank_of (known (both laptop other newer (pos 8) (pos 9)) (codes "a"))
apply_delta_comm_example =
    apply_delta_comm hosts_only laptop (header_at 4) newer other (pos 8) (pos 9) (codes "a")
      newer-Takes other-Takes newer-AllTyped other-AllTyped laptop-Typed

apply_delta_twice_example :
    let t = after laptop newer (pos 8) (pos 9) in
    apply_delta newer (pos 10) (pos 11) t ≡ (
      ok (record {
        applied_records = 0;
        skipped_records = length newer.records;
        new_cursor = current_cursor t;
      }),
      touched_store (pos 10) (pos 11) t,
    )
apply_delta_twice_example =
    apply_delta_twice hosts_only laptop (header_at 4) newer (pos 8) (pos 9) (pos 10) (pos 11)
      newer-Takes newer-AllTyped laptop-Typed

desktop-Sends : Sends hosts_only desktop (header_at 5)
unfolding row_at list_beq
desktop-Sends = record {
  quiet = refl;
  keyed = (refl, (refl, tt));
  opened = refl;
  clock_fits = omega arith;
  rows_fit = (omega arith, (omega arith, tt));
  typed = (hosts_typed, (hosts_typed, tt));
}

laptop-Receives :
    Receives hosts_only laptop (header_at 4) (header_at 5) (record { logical_clock = 1 })
unfolding row_at list_beq
laptop-Receives = record {
  quiet = refl;
  keyed = (refl, (refl, tt));
  opened = refl;
  clock_fits = omega arith;
  same_vault = refl;
  in_order = omega arith;
  typed = laptop-Typed;
}

apply_delta-export_delta_example :
    (delta : VaultDelta) × (export_delta (record { logical_clock = 1 }) desktop
      ≡ (ok delta, desktop))
    × (rank_of (known (apply_delta delta (pos 8) (pos 9) laptop).1 (codes "a"))
        ≡ sent (min 1 5) (known desktop (codes "a")) (rank_of (known laptop (codes "a"))))
apply_delta-export_delta_example =
    apply_delta-export_delta hosts_only desktop laptop (header_at 5) (header_at 4)
      (record { logical_clock = 1 }) (pos 8) (pos 9) (codes "a") desktop-Sends laptop-Receives
