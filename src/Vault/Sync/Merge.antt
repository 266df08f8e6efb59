-- ===== src/Vault/Sync/Merge.antt =====
-- The loop of apply_delta of crates/seance-vault/src/lib.rs apart from the database: a device knows a
-- record by its id, and each record that comes in meets the one that is there, if it is of its kind.
use seance.Prelude.{
  true, Option, none, some, List, [], ◌∷◌, if◌then◌else◌, Text, list_beq, nat_eq, list_eq,
  list_beq_iff, All, ◌≡◌, refl, sym, ap, ◌∙◌, subst, inl, inr, arith, Bool-cases,
}
use seance.Prelude.Compare.{
  Ord, option_ord, greater, greater_idem, greater_assoc, greater_left_comm,
}
use seance.Vault.Model.{RecordKind, kind_as_str, EncryptedRecord, VaultDeltaRecord}
use seance.Vault.Storage.{same_kind}
use seance.Vault.Storage.Rows.{of_kind}
use seance.Vault.Sync.{delta_record_to_synced_record, keeps_existing}
use seance.Vault.Sync.Precedence.{Rank, rank, rank_ord, compare_rank}

-- What a device knows.
abbrev pub Replica : Type 0
Replica = Text → Option EncryptedRecord

unfoldable pub join : EncryptedRecord → Option EncryptedRecord → Option EncryptedRecord
join incoming existing =
    if keeps_existing incoming (of_kind incoming.kind existing) then existing else some incoming

unfoldable pub merge_record : VaultDeltaRecord → Replica → Replica
unfolding join delta_record_to_synced_record
merge_record r f id =
    if list_beq r.record_id id then join (delta_record_to_synced_record r) (f id) else f id

unfoldable pub merge : List VaultDeltaRecord → Replica → Replica
unfolding merge_record
merge [] f = f
merge (r ∷ rest) f = merge rest (merge_record r f)

abbrev pub rank_of : Option EncryptedRecord → Option Rank
rank_of none = none
rank_of (some r) = some (rank r)

abbrev pub rank_option_ord : Ord (Option Rank)
rank_option_ord = option_ord ⦃o = rank_ord⦄

-- The higher of two ranks, where nothing is below everything.
abbrev pub higher : Option Rank → Option Rank → Option Rank
higher = greater rank_option_ord

abbrev pub delta_rank : VaultDeltaRecord → Rank
delta_rank r = (
  r.logical_clock,
  (
    r.modified_at,
    (
      r.record_id,
      (
        r.deleted_at,
        (r.key_nonce, (r.wrapped_record_key, (r.payload_nonce, r.payload_ciphertext))),
      ),
    ),
  ),
)

-- The highest rank among the versions of one record.
unfoldable pub best : Text → List VaultDeltaRecord → Option Rank → Option Rank
best id [] m = m
best id (r ∷ rest) m =
    best id rest (if list_beq r.record_id id then higher (some (delta_rank r)) m else m)

-- The kind of a record is a function of its id.
abbrev pub Typed : (Text → RecordKind) → Option EncryptedRecord → Text → Type 0
Typed kinds none id = Unit
Typed kinds (some r) id = same_kind r.kind (kinds id) ≡ true

abbrev pub AllTyped : (Text → RecordKind) → List VaultDeltaRecord → Type 0
AllTyped kinds = All (λ (r : VaultDeltaRecord). same_kind r.kind (kinds r.record_id) ≡ true)

pub same_kind_both :
    (a b c : RecordKind) → same_kind a c ≡ true → same_kind b c ≡ true → same_kind a b ≡ true
same_kind_both a b c p q = ground (
  arith,
  list_beq_iff (kind_as_str a) (kind_as_str c),
  list_beq_iff (kind_as_str b) (kind_as_str c),
  list_beq_iff (kind_as_str a) (kind_as_str b),
)

pub of_kind-Typed :
    (kinds : Text → RecordKind) (r : EncryptedRecord) (e : Option EncryptedRecord) (id : Text)
    → same_kind r.kind (kinds id) ≡ true
    → Typed kinds e id
    → of_kind r.kind e ≡ e
of_kind-Typed kinds r none id p t = refl
of_kind-Typed kinds r (some x) id p t = rw (same_kind_both x.kind r.kind (kinds id) t p) refl

join-some :
    (r e : EncryptedRecord)
    → rank_of (if keeps_existing r (some e) then some e else some r)
      ≡ higher (some (rank r)) (some (rank e))
unfolding keeps_existing
join-some r e = rw (compare_rank r e) (ground arith)

join-none :
    (r : EncryptedRecord) → rank_of (if keeps_existing r none then none else some r) ≡ some (rank r)
unfolding keeps_existing
join-none r = refl

join-rank :
    (r : EncryptedRecord) (e : Option EncryptedRecord)
    → of_kind r.kind e ≡ e
    → rank_of (join r e) ≡ higher (some (rank r)) (rank_of e)
unfolding join
join-rank r none t = join-none r
join-rank r (some e) t = rw t (join-some r e)

-- A replica whose records all have the kinds of their ids.
abbrev pub ReplicaTyped : (Text → RecordKind) → Replica → Type 0
ReplicaTyped kinds f = (id : Text) → Typed kinds (f id) id

join-Typed :
    (kinds : Text → RecordKind) (r : EncryptedRecord) (e : Option EncryptedRecord) (id : Text)
    → same_kind r.kind (kinds id) ≡ true
    → Typed kinds e id
    → Typed kinds (join r e) id
unfolding join
join-Typed kinds r e id p t = elim (Bool-cases (keeps_existing r (of_kind r.kind e))) [
  | inl stays ↦ rw stays t
  | inr goes ↦ rw goes p
]

pub merge_record-Typed :
    (kinds : Text → RecordKind) (r : VaultDeltaRecord) (f : Replica)
    → same_kind r.kind (kinds r.record_id) ≡ true
    → ReplicaTyped kinds f
    → ReplicaTyped kinds (merge_record r f)
unfolding merge_record join delta_record_to_synced_record
merge_record-Typed kinds r f p t id = elim (Bool-cases (list_beq r.record_id id)) [
  | inl same ↦
      let e : r.record_id ≡ id = (list_beq_iff r.record_id id).0 same in
      rw same (
        join-Typed kinds (delta_record_to_synced_record r) (f id) id
          (subst (λ j. same_kind r.kind (kinds j) ≡ true) e p) (t id))
  | inr other ↦ rw other (t id)
]

merge_record-rank :
    (kinds : Text → RecordKind) (r : VaultDeltaRecord) (f : Replica) (id : Text)
    → same_kind r.kind (kinds r.record_id) ≡ true
    → ReplicaTyped kinds f
    → rank_of (merge_record r f id) ≡ (
        if list_beq r.record_id id
        then higher (some (delta_rank r)) (rank_of (f id))
        else rank_of (f id))
unfolding merge_record delta_record_to_synced_record
merge_record-rank kinds r f id p t = elim (Bool-cases (list_beq r.record_id id)) [
  | inl same ↦
      let e : r.record_id ≡ id = (list_beq_iff r.record_id id).0 same in
      let q : same_kind r.kind (kinds id) ≡ true =
        subst (λ j. same_kind r.kind (kinds j) ≡ true) e p in
      rw same (
        join-rank (delta_record_to_synced_record r) (f id)
          (of_kind-Typed kinds (delta_record_to_synced_record r) (f id) id q (t id)))
  | inr other ↦ rw other refl
]

-- The rank that a record ends with is the highest of all versions, whatever their order.
pub merge-rank :
    (kinds : Text → RecordKind) (rs : List VaultDeltaRecord) (f : Replica) (id : Text)
    → AllTyped kinds rs
    → ReplicaTyped kinds f
    → rank_of (merge rs f id) ≡ best id rs (rank_of (f id))
unfolding merge best
merge-rank kinds [] f id p t = refl
merge-rank kinds (r ∷ rest) f id p t =
    merge-rank kinds rest (merge_record r f) id p.1 (merge_record-Typed kinds r f p.0 t)
    ∙ ap (best id rest) (merge_record-rank kinds r f id p.0 t)

pub merge-Typed :
    (kinds : Text → RecordKind) (rs : List VaultDeltaRecord) (f : Replica)
    → AllTyped kinds rs
    → ReplicaTyped kinds f
    → ReplicaTyped kinds (merge rs f)
unfolding merge
merge-Typed kinds [] f p t = t
merge-Typed kinds (r ∷ rest) f p t =
    merge-Typed kinds rest (merge_record r f) p.1 (merge_record-Typed kinds r f p.0 t)

pub best-higher :
    (id : Text) (rs : List VaultDeltaRecord) (m n : Option Rank)
    → best id rs (higher m n) ≡ higher m (best id rs n)
unfolding best
best-higher id [] m n = refl
best-higher id (r ∷ rest) m n = elim (Bool-cases (list_beq r.record_id id)) [
  | inl same ↦ rw same (
      ap (best id rest) (greater_left_comm rank_option_ord (some (delta_rank r)) m n)
      ∙ best-higher id rest m (higher (some (delta_rank r)) n))
  | inr other ↦ rw other (best-higher id rest m n)
]

-- Two lists of versions give the same in either order.
pub best_comm :
    (id : Text) (rs qs : List VaultDeltaRecord) (m : Option Rank)
    → best id rs (best id qs m) ≡ best id qs (best id rs m)
unfolding best
best_comm id [] qs m = refl
best_comm id (r ∷ rest) qs m = elim (Bool-cases (list_beq r.record_id id)) [
  | inl same ↦ rw same (
      ap (best id rest) (sym (best-higher id qs (some (delta_rank r)) m))
      ∙ best_comm id rest qs (higher (some (delta_rank r)) m))
  | inr other ↦ rw other (best_comm id rest qs m)
]

pub higher_twice : (m n : Option Rank) → higher m (higher m n) ≡ higher m n
higher_twice m n =
    sym (greater_assoc rank_option_ord m m n)
    ∙ ap (λ x. higher x n) (greater_idem rank_option_ord m)

-- A list of versions that is applied again changes nothing.
pub best_idem :
    (id : Text) (rs : List VaultDeltaRecord) (m : Option Rank)
    → best id rs (best id rs m) ≡ best id rs m
unfolding best
best_idem id [] m = refl
best_idem id (r ∷ rest) m = elim (Bool-cases (list_beq r.record_id id)) [
  | inl same ↦
      let d : Option Rank = some (delta_rank r) in
      let below : higher d (best id rest (higher d m)) ≡ best id rest (higher d m) =
        ap (higher d) (best-higher id rest d m)
        ∙ higher_twice d (best id rest m)
        ∙ sym (best-higher id rest d m) in
      rw same (ap (best id rest) below ∙ best_idem id rest (higher d m))
  | inr other ↦ rw other (best_idem id rest m)
]
