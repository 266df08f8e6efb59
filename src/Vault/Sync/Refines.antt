-- ===== src/Vault/Sync/Refines.antt =====
-- apply_delta of crates/seance-vault/src/lib.rs as a whole: what the device knows afterwards, its clock
-- and the report.
use mathlib.Core.Option
use seance.Prelude.{
  ℕ, ◌+◌, ◌≤◌, max, true, some, length, Text, list_beq, nat_eq, list_eq, Result, ok, err, ◌≡◌, refl,
  ap, ◌∙◌, arith,
}
use seance.Prelude.Compare.{ℤ}
use seance.Vault.Exec.{pure, gets, bind_ok}
use seance.Vault.Model.{RecordKind, VaultHeader, VaultDelta, ApplyDeltaReport}
use seance.Vault.Failure.{VaultError}
use seance.Vault.Storage.{with_clock}
use seance.Vault.Storage.Rows.{Keyed}
use seance.Vault.Storage.Quiet.{Fits, Quiet}
use seance.Vault.Session.{VaultStore}
use seance.Vault.Sync.{Tally, current_cursor, apply_delta}
use seance.Vault.Sync.Merge.{rank_of, best, AllTyped, ReplicaTyped, merge-rank}
use seance.Vault.Sync.Newest.{newest, merge-newest}
use seance.Vault.Session.Ready.{get_header-some, raise_if-false}
use seance.Vault.Sync.Applied.{
  AllFit, known, in_rows, rows_all, tally_all, highest, rows_all-Keyed, row_at-rows_all,
  tally_all-count, tally_all-cursor, highest-Fits, apply_records-Quiet, set_clock-Quiet,
}

abbrev pub first_tally : VaultHeader → VaultDelta → Tally
first_tally h delta = record {
  applied = 0;
  skipped = 0;
  cursor = max h.last_logical_clock delta.to_clock;
}

module _ {D : Type 0} where
  -- A device takes in a delta of its own vault that starts no later than its clock.
  pub record Takes (s : VaultStore D) (h : VaultHeader) (delta : VaultDelta) : Type 0 where
    pub quiet : Quiet s.conn
    pub keyed : Keyed s.conn.records
    pub opened : s.header ≡ some h
    pub same_vault : list_beq delta.vault_id h.vault_id ≡ true
    pub in_order : delta.from_clock ≤ h.last_logical_clock
    pub clock_fits : Fits h.last_logical_clock
    pub end_fits : Fits delta.to_clock
    pub all_fit : AllFit delta.records

  abbrev pub final : VaultStore D → VaultHeader → VaultDelta → Tally
  final s h delta = tally_all delta.records s.conn.records (first_tally h delta)

  abbrev pub taken : VaultStore D → VaultHeader → VaultDelta → ℤ → ℤ → VaultStore D
  taken s h delta written_at now =
      let clock : ℕ = (final s h delta).cursor in
      record s {
        conn = record s.conn {
          records = rows_all delta.records s.conn.records;
          vault_header = Option.map (with_clock clock written_at) s.conn.vault_header;
        };
        header = Option.map (with_clock clock now) s.header;
      }

  abbrev pub report : VaultStore D → VaultHeader → VaultDelta → ApplyDeltaReport
  report s h delta = record {
    applied_records = (final s h delta).applied;
    skipped_records = (final s h delta).skipped;
    new_cursor = record { logical_clock = (final s h delta).cursor };
  }

  gets_cursor :
      (s : VaultStore D) (h : VaultHeader)
      → s.header ≡ some h
      → gets {E = VaultError} (λ (u : VaultStore D). (current_cursor u).logical_clock) s
        ≡ (ok h.last_logical_clock, s)
  unfolding current_cursor gets
  gets_cursor s h p = simp p refl

  pub final-cursor :
      (s : VaultStore D) (h : VaultHeader) (delta : VaultDelta)
      → (final s h delta).cursor ≡ highest (max h.last_logical_clock delta.to_clock) delta.records
  final-cursor s h delta = tally_all-cursor delta.records s.conn.records (first_tally h delta)

  pub final-Fits :
      (s : VaultStore D) (h : VaultHeader) (delta : VaultDelta)
      → Takes s h delta
      → Fits (final s h delta).cursor
  final-Fits s h delta t = rw (final-cursor s h delta) (
      highest-Fits (max h.last_logical_clock delta.to_clock) delta.records
        (omega (arith, t.clock_fits, t.end_fits)) t.all_fit)

  pub apply_delta-Quiet :
      (s : VaultStore D) (h : VaultHeader) (delta : VaultDelta) (written_at now : ℤ)
      → Takes s h delta
      → apply_delta delta written_at now s ≡ (ok (report s h delta), taken s h delta written_at now)
  unfolding apply_delta pure
  apply_delta-Quiet s h delta written_at now t =
      bind_ok _ _ s s h (get_header-some _ s h t.opened)
      ∙ bind_ok _ _ s s tt (raise_if-false _ _ s (ground (arith, t.same_vault)))
      ∙ bind_ok _ _ s s h.last_logical_clock (gets_cursor s h t.opened)
      ∙ bind_ok _ _ s s tt (raise_if-false _ _ s (ground (arith, t.in_order)))
      ∙ bind_ok _ _ s (in_rows (rows_all delta.records s.conn.records) s) (final s h delta)
          (apply_records-Quiet delta.records (first_tally h delta) s t.quiet t.all_fit)
      ∙ bind_ok _ _ (in_rows (rows_all delta.records s.conn.records) s)
          (taken s h delta written_at now) tt
          (set_clock-Quiet (final s h delta).cursor written_at now
            (in_rows (rows_all delta.records s.conn.records) s) t.quiet (final-Fits s h delta t))

  -- What a delta leaves: the newest versions, the report and the clock, in memory and in the database
  -- alike.
  pub record IsMerged (s : VaultStore D) (h : VaultHeader) (delta : VaultDelta) (written_at now : ℤ)
      (rep : ApplyDeltaReport) (t : VaultStore D) : Type 0 where
    pub newest_known : (id : Text) → known t id ≡ newest id delta.records (known s id)
    pub highest_rank :
        (id : Text) → rank_of (known t id) ≡ best id delta.records (rank_of (known s id))
    pub keyed : Keyed t.conn.records
    pub counted : rep.applied_records + rep.skipped_records ≡ length delta.records
    pub cursor :
        rep.new_cursor.logical_clock
        ≡ highest (max h.last_logical_clock delta.to_clock) delta.records
    pub clock : t.header ≡ some (with_clock rep.new_cursor.logical_clock now h)
    pub clock_written :
        t.conn.vault_header
        ≡ Option.map (with_clock rep.new_cursor.logical_clock written_at) s.conn.vault_header

  pub Merges :
      VaultStore D
      → VaultHeader
      → VaultDelta
      → ℤ
      → ℤ
      → Result VaultError ApplyDeltaReport × VaultStore D
      → Type 0
  Merges s h delta written_at now (ok rep, t) = IsMerged s h delta written_at now rep t
  Merges s h delta written_at now (err e, t) = ⊥

  -- A vault that can take a delta of its own in, on a database that answers, where the kind of every
  -- record, known or coming in, is a function of its id: `apply_delta` returns. Of the version of a
  -- record that is known and those that come in, the one of the highest rank is known afterwards, the
  -- known one staying against an equal. Ids stay unique, each record is counted once, as applied or as
  -- skipped, and the clock, in memory and in the database, is the highest of the old one, the delta's
  -- and its records'.
  pub apply_delta-Merges :
      (kinds : Text → RecordKind) (s : VaultStore D) (h : VaultHeader) (delta : VaultDelta)
      (written_at now : ℤ)
      → Takes s h delta
      → AllTyped kinds delta.records
      → ReplicaTyped kinds (known s)
      → Merges s h delta written_at now (apply_delta delta written_at now s)
  unfolding Merges
  apply_delta-Merges kinds s h delta written_at now t typed known_typed =
      let looped = λ (id : Text). row_at-rows_all delta.records s.conn.records id t.keyed in
      rw (apply_delta-Quiet s h delta written_at now t) (record {
        newest_known =
            λ id. looped id ∙ merge-newest kinds delta.records (known s) id typed known_typed;
        highest_rank = λ id.
            ap rank_of (looped id) ∙ merge-rank kinds delta.records (known s) id typed known_typed;
        keyed = rows_all-Keyed delta.records s.conn.records t.keyed;
        counted = omega (arith, tally_all-count delta.records s.conn.records (first_tally h delta));
        cursor = final-cursor s h delta;
        clock = simp t.opened refl;
        clock_written = refl;
      })
