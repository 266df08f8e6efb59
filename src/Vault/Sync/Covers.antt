-- ===== src/Vault/Sync/Covers.antt =====
-- When a record that comes in is skipped by apply_delta of crates/seance-vault/src/lib.rs.
use seance.Prelude.{
  true, Option, none, some, List, [], ◌∷◌, Text, list_beq, list_beq_iff, nat_eq, list_eq, All, ◌≡◌,
  refl, subst, inl, inr, Bool-cases,
}
use seance.Prelude.Compare.{is_le}
use seance.Vault.Model.{RecordKind, EncryptedRecord, VaultDeltaRecord}
use seance.Vault.Storage.{same_kind}
use seance.Vault.Storage.Rows.{row_at, Keyed, find-has_key}
use seance.Vault.Sync.{delta_record_to_synced_record, compare_record_precedence, keeps_existing}
use seance.Vault.Sync.Precedence.{Below, Below-refl, Below-total, Below-trans}
use seance.Vault.Sync.Merge.{
  Replica, AllTyped, Typed, ReplicaTyped, merge_record, merge, join, merge_record-Typed,
  same_kind_both,
}
use seance.Vault.Sync.Applied.{skips}

abbrev pub incoming : VaultDeltaRecord → EncryptedRecord
incoming = delta_record_to_synced_record

-- A version of the record's kind that ranks no lower is there.
abbrev pub Covers : VaultDeltaRecord → Option EncryptedRecord → Type 0
Covers r none = ⊥
Covers r (some x) = (same_kind x.kind r.kind ≡ true) × Below (incoming r) x

pub skip-Covers :
    (r : VaultDeltaRecord) (rows : List EncryptedRecord) (e : Option EncryptedRecord)
    → Keyed rows
    → row_at r.record_id rows ≡ e
    → Covers r e
    → skips r rows ≡ true
unfolding keeps_existing
skip-Covers r rows none k p c = absurd c
skip-Covers r rows (some x) k p c = rw (find-has_key r.record_id r.kind rows k) (rw p (rw c.0 c.1))

join-Covers :
    (kinds : Text → RecordKind) (r : VaultDeltaRecord) (e : Option EncryptedRecord)
    → same_kind r.kind (kinds r.record_id) ≡ true
    → Typed kinds e r.record_id
    → Covers r (join (incoming r) e)
unfolding join keeps_existing delta_record_to_synced_record
join-Covers kinds r none p t =
    (same_kind_both r.kind r.kind (kinds r.record_id) p p, Below-refl (incoming r))
join-Covers kinds r (some x) p t =
    let same : same_kind x.kind r.kind ≡ true =
      same_kind_both x.kind r.kind (kinds r.record_id) t p in
    elim (Bool-cases (is_le (compare_record_precedence (incoming r) x))) [
      | inl stays ↦ rw same (rw stays (same, stays))
      | inr goes ↦
          rw same (
            rw goes (same_kind_both r.kind r.kind (kinds r.record_id) p p, Below-refl (incoming r)))
    ]

-- A version that comes in later covers no less.
later-Covers :
    (r q : VaultDeltaRecord) (e : Option EncryptedRecord)
    → same_kind q.kind r.kind ≡ true
    → Covers r e
    → Covers r (join (incoming q) e)
unfolding join keeps_existing delta_record_to_synced_record
later-Covers r q none p c = absurd c
later-Covers r q (some x) p c =
    let same : same_kind x.kind q.kind ≡ true = same_kind_both x.kind q.kind r.kind c.0 p in
    elim (Bool-cases (is_le (compare_record_precedence (incoming q) x))) [
      | inl stays ↦ rw same (rw stays c)
      | inr goes ↦ rw same (
          rw goes
            (p, Below-trans (incoming r) x (incoming q) c.1 (Below-total (incoming q) x goes)))
    ]

merge_record-Covers :
    (kinds : Text → RecordKind) (r q : VaultDeltaRecord) (f : Replica)
    → same_kind r.kind (kinds r.record_id) ≡ true
    → same_kind q.kind (kinds q.record_id) ≡ true
    → Covers r (f r.record_id)
    → Covers r (merge_record q f r.record_id)
unfolding merge_record
merge_record-Covers kinds r q f pr pq c = elim (Bool-cases (list_beq q.record_id r.record_id)) [
  | inl own ↦
      let e : q.record_id ≡ r.record_id = (list_beq_iff q.record_id r.record_id).0 own in
      let pq' : same_kind q.kind (kinds r.record_id) ≡ true =
        subst (λ j. same_kind q.kind (kinds j) ≡ true) e pq in
      rw own (
        later-Covers r q (f r.record_id) (same_kind_both q.kind r.kind (kinds r.record_id) pq' pr)
          c)
  | inr other ↦ rw other c
]

merge-Covers :
    (kinds : Text → RecordKind) (r : VaultDeltaRecord) (rs : List VaultDeltaRecord) (f : Replica)
    → same_kind r.kind (kinds r.record_id) ≡ true
    → AllTyped kinds rs
    → Covers r (f r.record_id)
    → Covers r (merge rs f r.record_id)
unfolding merge
merge-Covers kinds r [] f p t c = c
merge-Covers kinds r (q ∷ rest) f p t c =
    merge-Covers kinds r rest (merge_record q f) p t.1 (merge_record-Covers kinds r q f p t.0 c)

first-Covers :
    (kinds : Text → RecordKind) (r : VaultDeltaRecord) (f : Replica)
    → same_kind r.kind (kinds r.record_id) ≡ true
    → ReplicaTyped kinds f
    → Covers r (merge_record r f r.record_id)
unfolding merge_record
first-Covers kinds r f p t =
    rw ((list_beq_iff r.record_id r.record_id).1 refl)
      (join-Covers kinds r (f r.record_id) p (t r.record_id))

-- After a delta each of its records is covered.
pub merge-AllCovers :
    (kinds : Text → RecordKind) (rs : List VaultDeltaRecord) (f : Replica)
    → AllTyped kinds rs
    → ReplicaTyped kinds f
    → All (λ (r : VaultDeltaRecord). Covers r (merge rs f r.record_id)) rs
unfolding merge
merge-AllCovers kinds [] f p t = tt
merge-AllCovers kinds (r ∷ rest) f p t = (
  merge-Covers kinds r rest (merge_record r f) p.0 p.1 (first-Covers kinds r f p.0 t),
  merge-AllCovers kinds rest (merge_record r f) p.1 (merge_record-Typed kinds r f p.0 t),
)
