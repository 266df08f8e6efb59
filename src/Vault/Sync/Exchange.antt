-- ===== src/Vault/Sync/Exchange.antt =====
-- Several deltas, and a delta that a device takes in again, in crates/seance-vault/src/lib.rs.
use seance.Prelude.{ℕ, ◌≤◌, max, List, [], ◌∷◌, Text, ◌≡◌, sym, ap, ◌∙◌, subst, arith}
use seance.Prelude.Compare.{ℤ}
use mathlib.Core.Option
use seance.Vault.Model.{RecordKind, VaultHeader, VaultDeltaRecord, VaultDelta}
use seance.Vault.Storage.{with_clock}
use seance.Vault.Session.{VaultStore}
use seance.Vault.Sync.{apply_delta}
use seance.Vault.Sync.Merge.{
  AllTyped, Typed, ReplicaTyped, rank_of, merge, best, merge-rank, merge-Typed, best_comm,
}
use seance.Vault.Sync.Applied.{known, highest, rows_all-Keyed, row_at-rows_all}
use seance.Vault.Sync.Refines.{Takes, final, taken, final-Fits, final-cursor, apply_delta-Quiet}

pub highest-le : (n : ℕ) (rs : List VaultDeltaRecord) → n ≤ highest n rs
highest-le n [] = omega arith
highest-le n (r ∷ rest) = omega (arith, highest-le (max n r.logical_clock) rest)

module _ {D : Type 0} where
  -- The vault that a delta leaves.
  abbrev pub after : VaultStore D → VaultDelta → ℤ → ℤ → VaultStore D
  after s delta written_at now = (apply_delta delta written_at now s).1

  pub after_lem :
      (s : VaultStore D) (h : VaultHeader) (delta : VaultDelta) (written_at now : ℤ)
      → Takes s h delta
      → after s delta written_at now ≡ taken s h delta written_at now
  after_lem s h delta written_at now t =
      ap (λ p. p.1) (apply_delta-Quiet s h delta written_at now t)

  pub taken-Takes :
      (s : VaultStore D) (h : VaultHeader) (d e : VaultDelta) (written_at now : ℤ)
      → Takes s h d
      → Takes s h e
      → Takes (taken s h d written_at now) (with_clock (final s h d).cursor now h) e
  unfolding with_clock
  taken-Takes s h d e written_at now t u = record {
    quiet = t.quiet;
    keyed = rows_all-Keyed d.records s.conn.records t.keyed;
    opened = ap (Option.map (with_clock (final s h d).cursor now)) t.opened;
    same_vault = u.same_vault;
    in_order = omega (
      arith,
      u.in_order,
      final-cursor s h d,
      highest-le (max h.last_logical_clock d.to_clock) d.records,
    );
    clock_fits = final-Fits s h d t;
    end_fits = u.end_fits;
    all_fit = u.all_fit;
  }

  pub known-taken :
      (s : VaultStore D) (h : VaultHeader) (d : VaultDelta) (written_at now : ℤ) (id : Text)
      → Takes s h d
      → known (taken s h d written_at now) id ≡ merge d.records (known s) id
  known-taken s h d written_at now id t = row_at-rows_all d.records s.conn.records id t.keyed

  -- Two deltas, one after the other.
  abbrev pub both : (s : VaultStore D) (d e : VaultDelta) → ℤ → ℤ → VaultStore D
  both s d e written_at now = after (after s d written_at now) e written_at now

  both-rank :
      (kinds : Text → RecordKind) (s : VaultStore D) (h : VaultHeader) (d e : VaultDelta)
      (written_at now : ℤ) (id : Text)
      → Takes s h d
      → Takes s h e
      → AllTyped kinds d.records
      → AllTyped kinds e.records
      → ReplicaTyped kinds (known s)
      → rank_of (known (both s d e written_at now) id)
        ≡ best id e.records (best id d.records (rank_of (known s id)))
  both-rank kinds s h d e written_at now id t u td te ts =
      let t1 : Takes (taken s h d written_at now) (with_clock (final s h d).cursor now h) e =
        taken-Takes s h d e written_at now t u in
      ap (λ x. rank_of (known (after x e written_at now) id)) (after_lem s h d written_at now t)
      ∙ ap (λ x. rank_of (known x id)) (after_lem _ _ e written_at now t1)
      ∙ ap rank_of (known-taken _ _ e written_at now id t1)
      ∙ merge-rank kinds e.records (known (taken s h d written_at now)) id te (λ j.
        subst (λ x. Typed kinds x j) (sym (known-taken s h d written_at now j t))
          (merge-Typed kinds d.records (known s) td ts j))
      ∙ ap (λ x. best id e.records (rank_of x)) (known-taken s h d written_at now id t)
      ∙ ap (best id e.records) (merge-rank kinds d.records (known s) id td ts)

  -- Two deltas of the vault, on a database that answers, each record's kind being a function of its
  -- id: in whichever order the device takes them in, every record ends with the same rank, so with
  -- the same clock, times and ciphertext.
  pub apply_delta_comm :
      (kinds : Text → RecordKind) (s : VaultStore D) (h : VaultHeader) (d e : VaultDelta)
      (written_at now : ℤ) (id : Text)
      → Takes s h d
      → Takes s h e
      → AllTyped kinds d.records
      → AllTyped kinds e.records
      → ReplicaTyped kinds (known s)
      → rank_of (known (both s d e written_at now) id)
        ≡ rank_of (known (both s e d written_at now) id)
  apply_delta_comm kinds s h d e written_at now id t u td te ts =
      both-rank kinds s h d e written_at now id t u td te ts
      ∙ best_comm id e.records d.records (rank_of (known s id))
      ∙ sym (both-rank kinds s h e d written_at now id u t te td ts)
