-- ===== src/Vault/Sync/Newest.antt =====
-- The reference for apply_delta of crates/seance-vault/src/lib.rs: of the versions of a record, the one
-- of the highest rank, and of two of one rank the one that was there. It reads the order of ranks alone.
use Prim.Native.Nat.{Ordering}
use seance.Prelude.{
  true, Option, none, some, List, [], ◌∷◌, if◌then◌else◌, Text, list_beq, list_beq_iff, nat_eq,
  list_eq, ◌≡◌, refl, ap, ◌∙◌, subst, inl, inr, Bool-cases,
}
use seance.Prelude.Compare.{is_le, reversed}
use seance.Vault.Model.{RecordKind, EncryptedRecord, VaultDeltaRecord, synced}
use seance.Vault.Storage.{same_kind}
use seance.Vault.Sync.{delta_record_to_synced_record, keeps_existing}
use seance.Vault.Sync.Precedence.{rank, rank_ord, compare_rank}
use seance.Vault.Sync.Merge.{
  Replica, join, merge_record, merge, AllTyped, ReplicaTyped, of_kind-Typed, merge_record-Typed,
}

-- A record as it is stored on the device that it comes to.
abbrev pub as_received : VaultDeltaRecord → EncryptedRecord
as_received r = record {
  record_id = r.record_id;
  kind = r.kind;
  version = r.version;
  logical_clock = r.logical_clock;
  modified_at = r.modified_at;
  deleted_at = r.deleted_at;
  key_nonce = r.key_nonce;
  wrapped_record_key = r.wrapped_record_key;
  payload_nonce = r.payload_nonce;
  payload_ciphertext = r.payload_ciphertext;
  last_synced_clock = some r.logical_clock;
  sync_state = synced;
}

-- The record that is there gives way where its rank is the lower one.
abbrev pub of_ranks : Ordering → EncryptedRecord → EncryptedRecord → EncryptedRecord
of_ranks Ordering.lt existing incoming = incoming
of_ranks Ordering.eq existing incoming = existing
of_ranks Ordering.gt existing incoming = existing

abbrev pub newer_of : Option EncryptedRecord → EncryptedRecord → EncryptedRecord
newer_of none incoming = incoming
newer_of (some existing) incoming =
    of_ranks (rank_ord.cmp (rank existing) (rank incoming)) existing incoming

-- The version of one record that is left of all that come in, in their order.
unfoldable pub newest :
    Text → List VaultDeltaRecord → Option EncryptedRecord → Option EncryptedRecord
newest id [] existing = existing
newest id (r ∷ rest) existing =
    newest id rest
      (if list_beq r.record_id id then some (newer_of existing (as_received r)) else existing)

of_ranks-reversed :
    (o : Ordering) (existing incoming : EncryptedRecord)
    → (if is_le o then some existing else some incoming)
      ≡ some (of_ranks (reversed o) existing incoming)
of_ranks-reversed Ordering.lt existing incoming = refl
of_ranks-reversed Ordering.eq existing incoming = refl
of_ranks-reversed Ordering.gt existing incoming = refl

join-newer_of :
    (incoming : EncryptedRecord) (e : Option EncryptedRecord)
    → (if keeps_existing incoming e then e else some incoming) ≡ some (newer_of e incoming)
unfolding keeps_existing
join-newer_of incoming none = refl
join-newer_of incoming (some existing) =
    rw (compare_rank incoming existing, rank_ord.cmp_swap (rank incoming) (rank existing))
      (of_ranks-reversed (rank_ord.cmp (rank incoming) (rank existing)) existing incoming)

merge_record-newer_of :
    (kinds : Text → RecordKind) (r : VaultDeltaRecord) (f : Replica) (id : Text)
    → same_kind r.kind (kinds r.record_id) ≡ true
    → ReplicaTyped kinds f
    → merge_record r f id
      ≡ (if list_beq r.record_id id then some (newer_of (f id) (as_received r)) else f id)
unfolding merge_record join delta_record_to_synced_record
merge_record-newer_of kinds r f id p t = elim (Bool-cases (list_beq r.record_id id)) [
  | inl same ↦
      let e : r.record_id ≡ id = (list_beq_iff r.record_id id).0 same in
      let q : same_kind r.kind (kinds id) ≡ true =
        subst (λ j. same_kind r.kind (kinds j) ≡ true) e p in
      rw (same, of_kind-Typed kinds (as_received r) (f id) id q (t id))
        (join-newer_of (as_received r) (f id))
  | inr other ↦ rw other refl
]

-- Where each record's kind is a function of its id, the loop leaves the newest version of each.
pub merge-newest :
    (kinds : Text → RecordKind) (rs : List VaultDeltaRecord) (f : Replica) (id : Text)
    → AllTyped kinds rs
    → ReplicaTyped kinds f
    → merge rs f id ≡ newest id rs (f id)
unfolding merge newest
merge-newest kinds [] f id p t = refl
merge-newest kinds (r ∷ rest) f id p t =
    merge-newest kinds rest (merge_record r f) id p.1 (merge_record-Typed kinds r f p.0 t)
    ∙ ap (newest id rest) (merge_record-newer_of kinds r f id p.0 t)
