-- ===== src/Vault/Sync/Export.antt =====
-- export_delta of crates/seance-vault/src/lib.rs, and a device that takes in what another exports.
use seance.Prelude.{
  ℕ, ◌≤◌, min, true, Option, none, some, List, [], ◌∷◌, map, ltb, Text, list_beq, list_beq_iff,
  nat_eq, list_eq, All, if◌then◌else◌, ok, ◌≡◌, refl, ap, ◌∙◌, subst, inl, inr, arith, Bool-cases,
}
use seance.Prelude.Compare.{ℤ, greater_left_comm}
use seance.Prelude.SortBy.{retain}
use seance.Prelude.SortBy.Members.{All-retain, All-sort_by, All-along_map, sort_by_unseen}
use seance.Vault.Exec.{pure, bind_ok}
use seance.Vault.Model.{
  RecordKind, EncryptedRecord, VaultHeader, VaultDeltaRecord, VaultDelta, SyncCursor, delta_record,
}
use seance.Vault.Failure.{vault_not_initialized}
use seance.Vault.Storage.{same_kind, oldest_first, list_records_after_clock}
use seance.Vault.Storage.Rows.{row_at, Keyed}
use seance.Vault.Storage.Quiet.{Fits, Quiet, query-Quiet, bind_u64-Fits}
use seance.Vault.Session.{VaultStore}
use seance.Vault.Session.Ready.{sql_lem, get_header-some}
use seance.Vault.Sync.{export_delta, apply_delta}
use seance.Vault.Sync.Precedence.{Rank, rank}
use seance.Vault.Sync.Merge.{
  AllTyped, ReplicaTyped, rank_of, higher, best, delta_rank, rank_option_ord, merge-rank,
}
use seance.Vault.Sync.Applied.{known}
use seance.Vault.Sync.Refines.{Takes}
use seance.Vault.Sync.Exchange.{after_lem, known-taken}

pub changed_since : ℕ → List EncryptedRecord → List EncryptedRecord
changed_since clock rows =
    oldest_first (retain (λ (r : EncryptedRecord). ltb clock r.logical_clock) rows)

pub exported : VaultHeader → SyncCursor → List EncryptedRecord → VaultDelta
exported h since rows = record {
  vault_id = h.vault_id;
  from_clock = min since.logical_clock h.last_logical_clock;
  to_clock = h.last_logical_clock;
  records = map delta_record (changed_since (min since.logical_clock h.last_logical_clock) rows);
}

best_swap :
    (id : Text) (a b : VaultDeltaRecord) (rs : List VaultDeltaRecord) (m : Option Rank)
    → best id (a ∷ b ∷ rs) m ≡ best id (b ∷ a ∷ rs) m
unfolding best
best_swap id a b rs m = ap (best id rs) (
    ground (arith, greater_left_comm rank_option_ord (some (delta_rank b)) (some (delta_rank a)) m))

best_cons :
    (id : Text) (r : EncryptedRecord) (xs ys : List EncryptedRecord)
    → ((m : Option Rank) → best id (map delta_record xs) m ≡ best id (map delta_record ys) m)
    → (m : Option Rank)
    → best id (map delta_record (r ∷ xs)) m ≡ best id (map delta_record (r ∷ ys)) m
unfolding best
best_cons id r xs ys e m = e _

best-changed_since :
    (id : Text) (clock : ℕ) (rows : List EncryptedRecord) (m : Option Rank)
    → best id (map delta_record (changed_since clock rows)) m
      ≡ best id
          (map delta_record (retain (λ (r : EncryptedRecord). ltb clock r.logical_clock) rows))
          m
unfolding changed_since oldest_first
best-changed_since id clock rows m =
    sort_by_unseen _ (λ xs. best id (map delta_record xs))
      (λ x y ys. best_swap id (delta_record x) (delta_record y) (map delta_record ys))
      (best_cons id) (retain (λ (r : EncryptedRecord). ltb clock r.logical_clock) rows) m

-- What the exporting device knows of one record, joined to what the other one does.
pub sent : ℕ → Option EncryptedRecord → Option Rank → Option Rank
sent clock none m = m
sent clock (some x) m = if ltb clock x.logical_clock then higher (some (rank x)) m else m

best_absent :
    (id : Text) (clock : ℕ) (rows : List EncryptedRecord) (m : Option Rank)
    → row_at id rows ≡ none
    → best id
        (map delta_record (retain (λ (r : EncryptedRecord). ltb clock r.logical_clock) rows))
        m
      ≡ m
unfolding best retain row_at delta_record
best_absent id clock [] m h = refl
best_absent id clock (r ∷ rest) m h = ground (arith, best_absent id clock rest m)

best_present :
    (id : Text) (clock : ℕ) (rows : List EncryptedRecord) (m : Option Rank)
    → Keyed rows
    → best id
        (map delta_record (retain (λ (r : EncryptedRecord). ltb clock r.logical_clock) rows))
        m
      ≡ sent clock (row_at id rows) m
unfolding best retain row_at sent delta_record
best_present id clock [] m k = refl
best_present id clock (r ∷ rest) m k = elim (Bool-cases (list_beq r.record_id id)) [
  | inl own ↦
      let e : r.record_id ≡ id = (list_beq_iff r.record_id id).0 own in
      let gone : row_at id rest ≡ none = subst (λ j. row_at j rest ≡ none) e k.0 in
      elim (Bool-cases (ltb clock r.logical_clock)) [
        | inl new ↦
            rw (new, own, best) (rw new (best_absent id clock rest (higher (some (rank r)) m) gone))
        | inr old ↦ rw old (rw own (rw old (best_absent id clock rest m gone)))
      ]
  | inr other ↦ elim (Bool-cases (ltb clock r.logical_clock)) [
    | inl new ↦ rw (new, other, best) ((best_present id clock rest m k.1))
    | inr old ↦ rw old (rw other (best_present id clock rest m k.1))
  ]
]

All-changed_since :
    (P : EncryptedRecord → Type 0) (Q : VaultDeltaRecord → Type 0)
    → ((r : EncryptedRecord) → P r → Q (delta_record r))
    → (clock : ℕ) (rows : List EncryptedRecord) → All P rows
    → All Q (map delta_record (changed_since clock rows))
unfolding changed_since oldest_first
All-changed_since P Q f clock rows h =
    All-along_map P Q delta_record f _ (All-sort_by _ P _ (All-retain P _ rows h))

module _ {D : Type 0} where
  pub export_delta-Quiet :
      (s : VaultStore D) (h : VaultHeader) (since : SyncCursor)
      → Quiet s.conn
      → s.header ≡ some h
      → Fits h.last_logical_clock
      → export_delta since s ≡ (ok (exported h since s.conn.records), s)
  unfolding export_delta list_records_after_clock pure changed_since exported
  export_delta-Quiet s h since q p f =
      let from : ℕ = min since.logical_clock h.last_logical_clock in
      bind_ok _ _ s s h (get_header-some vault_not_initialized s h p)
      ∙ bind_ok _ _ s s (changed_since from s.conn.records) (
          sql_lem _ s _ s.conn (
            bind_ok _ _ s.conn s.conn tt (bind_u64-Fits from s.conn (omega arith))
            ∙ query-Quiet _ s.conn q))

  -- A vault that sends, and one of the same vault that its delta is for.
  pub record Sends (kinds : Text → RecordKind) (s : VaultStore D) (h : VaultHeader) : Type 0 where
    pub quiet : Quiet s.conn
    pub keyed : Keyed s.conn.records
    pub opened : s.header ≡ some h
    pub clock_fits : Fits h.last_logical_clock
    pub rows_fit : All (λ (r : EncryptedRecord). Fits r.logical_clock) s.conn.records
    pub typed :
        All (λ (r : EncryptedRecord). same_kind r.kind (kinds r.record_id) ≡ true) s.conn.records

  pub record Receives (kinds : Text → RecordKind) (t : VaultStore D) (g h : VaultHeader)
      (since : SyncCursor) : Type 0 where
    pub quiet : Quiet t.conn
    pub keyed : Keyed t.conn.records
    pub opened : t.header ≡ some g
    pub clock_fits : Fits g.last_logical_clock
    pub same_vault : list_beq h.vault_id g.vault_id ≡ true
    pub in_order : min since.logical_clock h.last_logical_clock ≤ g.last_logical_clock
    pub typed : ReplicaTyped kinds (known t)

  sent-Takes :
      (kinds : Text → RecordKind) (s t : VaultStore D) (h g : VaultHeader) (since : SyncCursor)
      → Sends kinds s h
      → Receives kinds t g h since
      → Takes t g (exported h since s.conn.records)
  unfolding exported delta_record
  sent-Takes kinds s t h g since a b = record {
    quiet = b.quiet;
    keyed = b.keyed;
    opened = b.opened;
    same_vault = b.same_vault;
    in_order = b.in_order;
    clock_fits = b.clock_fits;
    end_fits = a.clock_fits;
    all_fit =
        All-changed_since (λ (r : EncryptedRecord). Fits r.logical_clock)
          (λ (r : VaultDeltaRecord). Fits r.logical_clock) (λ r f. f)
          (min since.logical_clock h.last_logical_clock) s.conn.records a.rows_fit;
  }

  sent-AllTyped :
      (kinds : Text → RecordKind) (s : VaultStore D) (h : VaultHeader) (since : SyncCursor)
      → Sends kinds s h
      → AllTyped kinds (exported h since s.conn.records).records
  unfolding exported delta_record
  sent-AllTyped kinds s h since a =
      All-changed_since (λ (r : EncryptedRecord). same_kind r.kind (kinds r.record_id) ≡ true)
        (λ (r : VaultDeltaRecord). same_kind r.kind (kinds r.record_id) ≡ true) (λ r f. f)
        (min since.logical_clock h.last_logical_clock) s.conn.records a.typed

  -- One vault exports what changed since a cursor, and another of the same id whose clock is no
  -- earlier takes it in, on databases that answer, each record's kind being a function of its id:
  -- every record then ranks, at the receiver, as the higher of what it had and of what the sender
  -- has, where the sender's version is later than the cursor, and as before where it is not or the
  -- sender has none.
  pub apply_delta-export_delta :
      (kinds : Text → RecordKind) (s t : VaultStore D) (h g : VaultHeader) (since : SyncCursor)
      (written_at now : ℤ) (id : Text)
      → Sends kinds s h
      → Receives kinds t g h since
      → (delta : VaultDelta) × (export_delta since s ≡ (ok delta, s))
        × (rank_of (known (apply_delta delta written_at now t).1 id)
            ≡ sent
                (min since.logical_clock h.last_logical_clock)
                (known s id)
                (rank_of (known t id)))
  unfolding exported
  apply_delta-export_delta kinds s t h g since written_at now id a b =
      let delta : VaultDelta = exported h since s.conn.records in
      let takes : Takes t g delta = sent-Takes kinds s t h g since a b in
      (
        delta,
        export_delta-Quiet s h since a.quiet a.opened a.clock_fits,
        ap (λ x. rank_of (known x id)) (after_lem t g delta written_at now takes)
            ∙ ap rank_of (known-taken t g delta written_at now id takes)
            ∙ merge-rank kinds delta.records (known t) id (sent-AllTyped kinds s h since a) b.typed
            ∙ best-changed_since id (min since.logical_clock h.last_logical_clock) s.conn.records
                (rank_of (known t id))
            ∙ best_present id (min since.logical_clock h.last_logical_clock) s.conn.records
                (rank_of (known t id)) a.keyed,
      )
