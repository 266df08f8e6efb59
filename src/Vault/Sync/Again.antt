-- ===== src/Vault/Sync/Again.antt =====
-- A delta that a device takes in a second time, in crates/seance-vault/src/lib.rs.
use mathlib.Core.Option
use seance.Prelude.{
  ℕ, ◌+◌, Option, none, some, ◌≤◌, max, true, some, List, [], ◌∷◌, length, Text, nat_eq, list_eq,
  All, ok, ◌≡◌, refl, sym, ap, ◌∙◌, subst, arith,
}
use seance.Prelude.Compare.{ℤ}
use seance.Vault.Model.{RecordKind, EncryptedRecord, VaultHeader, VaultDeltaRecord, VaultDelta}
use seance.Vault.Storage.{with_clock}
use seance.Vault.Storage.Rows.{row_at, Keyed}
use seance.Vault.Session.{VaultStore}
use seance.Vault.Sync.{Tally, current_cursor, apply_delta}
use seance.Vault.Sync.Merge.{Replica, AllTyped, ReplicaTyped, merge}
use seance.Vault.Sync.Applied.{
  known, skips, rows_all, tally_all, highest, rows_all-Keyed, row_at-rows_all, tally_all-count,
}
use seance.Vault.Sync.Refines.{
  Takes, final, report, taken, first_tally, final-cursor, apply_delta-Quiet,
}
use seance.Vault.Sync.Exchange.{after, after_lem, taken-Takes, highest-le}
use seance.Vault.Sync.Covers.{Covers, skip-Covers, merge-AllCovers}

abbrev AllSkip : List VaultDeltaRecord → List EncryptedRecord → Type 0
AllSkip rs rows = All (λ (r : VaultDeltaRecord). skips r rows ≡ true) rs

rows_all-AllSkip :
    (rs : List VaultDeltaRecord) (rows : List EncryptedRecord)
    → AllSkip rs rows
    → rows_all rs rows ≡ rows
rows_all-AllSkip [] rows h = refl
rows_all-AllSkip (r ∷ rest) rows h = rw (h.0) (rows_all-AllSkip rest rows h.1)

tally_all-AllSkip :
    (rs : List VaultDeltaRecord) (rows : List EncryptedRecord) (tally : Tally)
    → AllSkip rs rows
    → (tally_all rs rows tally).applied ≡ tally.applied
tally_all-AllSkip [] rows tally h = refl
tally_all-AllSkip (r ∷ rest) rows tally h =
    rw (h.0, tally_all)
      (tally_all-AllSkip rest rows
        (record tally { cursor = max tally.cursor r.logical_clock; skipped = tally.skipped + 1 })
        h.1)

highest_bounds :
    (n : ℕ) (rs : List VaultDeltaRecord)
    → All (λ (r : VaultDeltaRecord). r.logical_clock ≤ highest n rs) rs
highest_bounds n [] = tt
highest_bounds n (r ∷ rest) = (
  omega (arith, highest-le (max n r.logical_clock) rest),
  highest_bounds (max n r.logical_clock) rest,
)

highest_stable :
    (n : ℕ) (rs : List VaultDeltaRecord)
    → All (λ (r : VaultDeltaRecord). r.logical_clock ≤ n) rs
    → highest n rs ≡ n
highest_stable n [] h = refl
highest_stable n (r ∷ rest) h =
    let e : max n r.logical_clock ≡ n = omega (arith, h.0) in rw e (highest_stable n rest h.1)

AllSkip-Covers :
    (rs : List VaultDeltaRecord) (rows : List EncryptedRecord) (f : Replica)
    → Keyed rows
    → ((id : Text) → row_at id rows ≡ f id)
    → All (λ (r : VaultDeltaRecord). Covers r (f r.record_id)) rs
    → AllSkip rs rows
AllSkip-Covers [] rows f k e h = tt
AllSkip-Covers (r ∷ rest) rows f k e h =
    (skip-Covers r rows (f r.record_id) k (e r.record_id) h.0, AllSkip-Covers rest rows f k e h.1)

-- A header with the time of its last change set.
abbrev pub touched : ℤ → VaultHeader → VaultHeader
touched now h = record h { updated_at = now }

map-with_clock_twice :
    (clock : ℕ) (first second : ℤ) (h : Option VaultHeader)
    → Option.map (with_clock clock second) (Option.map (with_clock clock first) h)
      ≡ Option.map (touched second) (Option.map (with_clock clock first) h)
unfolding with_clock
map-with_clock_twice clock first second none = refl
map-with_clock_twice clock first second (some h) = refl

module _ {D : Type 0} where
  AllSkip-taken :
      (kinds : Text → RecordKind) (s : VaultStore D) (h : VaultHeader) (d : VaultDelta)
      (written_at now : ℤ)
      → Takes s h d
      → AllTyped kinds d.records
      → ReplicaTyped kinds (known s)
      → AllSkip d.records (taken s h d written_at now).conn.records
  AllSkip-taken kinds s h d written_at now t td ts =
      AllSkip-Covers d.records (rows_all d.records s.conn.records) (merge d.records (known s))
        (rows_all-Keyed d.records s.conn.records t.keyed)
        (λ id. row_at-rows_all d.records s.conn.records id t.keyed)
        (merge-AllCovers kinds d.records (known s) td ts)

  cursor_again :
      (s : VaultStore D) (h : VaultHeader) (d : VaultDelta) (written_at now : ℤ)
      → (final (taken s h d written_at now) (with_clock (final s h d).cursor now h) d).cursor
        ≡ (final s h d).cursor
  unfolding with_clock
  cursor_again s h d written_at now =
      let base : ℕ = max h.last_logical_clock d.to_clock in
      let top : max (final s h d).cursor d.to_clock ≡ (final s h d).cursor =
        omega (arith, final-cursor s h d, highest-le base d.records) in
      final-cursor (taken s h d written_at now) (with_clock (final s h d).cursor now h) d
      ∙ ap (λ n. highest n d.records) top
      ∙ highest_stable (final s h d).cursor d.records (
          subst (λ n. All (λ (r : VaultDeltaRecord). r.logical_clock ≤ n) d.records)
            (sym (final-cursor s h d)) (highest_bounds base d.records))

  cursor-taken :
      (s : VaultStore D) (h : VaultHeader) (d : VaultDelta) (written_at now : ℤ)
      → s.header ≡ some h
      → current_cursor (taken s h d written_at now)
        ≡ record { logical_clock = (final s h d).cursor }
  unfolding current_cursor with_clock
  cursor-taken s h d written_at now p = simp p refl

  report_again :
      (u : VaultStore D) (h : VaultHeader) (d : VaultDelta)
      → AllSkip d.records u.conn.records
      → report u h d ≡ record {
        applied_records = 0;
        skipped_records = length d.records;
        new_cursor = record { logical_clock = (final u h d).cursor };
      }
  report_again u h d k =
      let none_applied : (final u h d).applied ≡ 0 =
        tally_all-AllSkip d.records u.conn.records (first_tally h d) k in
      let all_skipped : (final u h d).skipped ≡ length d.records =
        omega (arith, none_applied, tally_all-count d.records u.conn.records (first_tally h d)) in
      λ i. record {
        applied_records = none_applied i;
        skipped_records = all_skipped i;
        new_cursor = record { logical_clock = (final u h d).cursor };
      }

  -- The vault with those times in both headers, and nothing else changed.
  abbrev pub touched_store : ℤ → ℤ → VaultStore D → VaultStore D
  touched_store written_at now s = record s {
    conn = record s.conn { vault_header = Option.map (touched written_at) s.conn.vault_header };
    header = Option.map (touched now) s.header;
  }

  taken_again :
      (s : VaultStore D) (h : VaultHeader) (d : VaultDelta)
      (written_at now written_again now_again : ℤ)
      → let u = taken s h d written_at now in
        let g = with_clock (final s h d).cursor now h in
        AllSkip d.records u.conn.records
        → taken u g d written_again now_again ≡ touched_store written_again now_again u
  taken_again s h d written_at now written_again now_again k =
      let u = taken s h d written_at now in
      rw
        (
          cursor_again s h d written_at now,
          rows_all-AllSkip d.records u.conn.records k,
          map-with_clock_twice (final s h d).cursor written_at written_again s.conn.vault_header,
          map-with_clock_twice (final s h d).cursor now now_again s.header,
        )
        refl

  -- A vault takes the same delta in once more, whatever the clocks show, under the conditions of
  -- `apply_delta_comm`: every record is skipped, the cursor stays, and of the whole vault nothing
  -- changes but the time of the last change in the header, in memory and in the database.
  pub apply_delta_twice :
      (kinds : Text → RecordKind) (s : VaultStore D) (h : VaultHeader) (d : VaultDelta)
      (written_at now written_again now_again : ℤ)
      → Takes s h d
      → AllTyped kinds d.records
      → ReplicaTyped kinds (known s)
      → let t = after s d written_at now in
        apply_delta d written_again now_again t ≡ (
          ok (record {
            applied_records = 0;
            skipped_records = length d.records;
            new_cursor = current_cursor t;
          }),
          touched_store written_again now_again t,
        )
  apply_delta_twice kinds s h d written_at now written_again now_again t td ts =
      let u : VaultStore D = taken s h d written_at now in
      let g : VaultHeader = with_clock (final s h d).cursor now h in
      let k : AllSkip d.records u.conn.records = AllSkip-taken kinds s h d written_at now t td ts in
      rw
        (
          after_lem s h d written_at now t,
          apply_delta-Quiet u g d written_again now_again (taken-Takes s h d d written_at now t t),
          report_again u g d k,
          taken_again s h d written_at now written_again now_again k,
          cursor_again s h d written_at now,
          cursor-taken s h d written_at now t.opened,
        )
        refl
