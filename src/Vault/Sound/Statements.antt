-- ===== src/Vault/Sound/Statements.antt =====
-- The statements of crates/seance-vault/src/storage.rs, answered or refused, on sound tables.
use seance.Prelude.{
  ℕ, ◌^◌, ◌≤◌, Bool, true, false, Option, none, some, List, [], ◌∷◌, leb, length, list_beq, nat_eq,
  list_eq, All, ◌≡◌, refl, sym, inl, inr, arith, Bool-cases, subst,
}
use seance.Prelude.Compare.{ℤ}
use seance.Vault.Exec.{pure, gets, modify, ◌>>=◌, ◌>>◌}
use seance.Vault.Exec.Keeps.{
  Keeps, Keeps-gets, Keeps-modify, Keeps-raise_if, Keeps-bind, Keeps-pure, Keeps-ok_or,
  Keeps-guarded,
}
use seance.Vault.Model.{VaultHeader, RecoveryBundle, EncryptedRecord}
use seance.Vault.Failure.{database}
use seance.Vault.Storage.{
  Conn, Sql, answered, statement, query, execute, bind_u64, bind_option, upsert_row, upsert_record,
  insert_recovery_bundle, insert_header, set_last_logical_clock, bump_logical_clock,
}
use seance.Vault.Storage.Rows.{Keyed, upsert_row-Keyed}
use seance.Vault.Storage.Quiet.{Fits, OptionFits}
use seance.Vault.Sound.{SyncedAt, RowSound, TablesSound}

All-upsert_row :
    (P : EncryptedRecord → Type 0) (new : EncryptedRecord) (rows : List EncryptedRecord)
    → P new
    → All P rows
    → All P (upsert_row new rows)
unfolding upsert_row
All-upsert_row P new [] p h = (p, tt)
All-upsert_row P new (old ∷ rest) p h = elim (Bool-cases (list_beq old.record_id new.record_id)) [
  | inl same ↦ rw same (p, h.1)
  | inr other ↦ rw other (h.0, All-upsert_row P new rest p h.1)
]

-- The same records and bundles.
pub same-TablesSound :
    {c d : Conn}
    → TablesSound c
    → d.records ≡ c.records
    → d.recovery_bundles ≡ c.recovery_bundles
    → TablesSound d
same-TablesSound h p q = record {
  keyed = subst Keyed (sym p) h.keyed;
  rows = subst (All RowSound) (sym p) h.rows;
  bundles = subst (λ bs. length {A = RecoveryBundle} bs ≤ 1) (sym q) h.bundles;
}

answered-Sound : (fs : List Bool) (c : Conn) → TablesSound c → TablesSound (answered fs c).1
unfolding answered
answered-Sound [] c h = h
answered-Sound (f ∷ fs) c h = same-TablesSound h refl refl

pub statement-Sound : Keeps TablesSound statement
unfolding statement
statement-Sound = record { at = λ c h. answered-Sound c.faults c h }

pub query-Sound : {A : Type 0} (f : Conn → A) → Keeps TablesSound (query f)
unfolding query
query-Sound f = Keeps-bind statement (λ u. gets f) statement-Sound (λ u. Keeps-gets f)

pub execute-Sound :
    (f : Conn → Conn)
    → ((c : Conn) → TablesSound c → TablesSound (f c))
    → Keeps TablesSound (execute f)
unfolding execute
execute-Sound f keep =
    Keeps-bind statement (λ u. modify f) statement-Sound (λ u. Keeps-modify f keep)

-- A statement that changes neither records nor bundles.
pub elsewhere-Sound :
    (f : Conn → Conn)
    → ((c : Conn) → (f c).records ≡ c.records)
    → ((c : Conn) → (f c).recovery_bundles ≡ c.recovery_bundles)
    → Keeps TablesSound (execute f)
elsewhere-Sound f p q = execute-Sound f (λ c h. same-TablesSound h (p c) (q c))

pub bind_u64-Sound : (n : ℕ) → Keeps TablesSound (bind_u64 n)
unfolding bind_u64
bind_u64-Sound n = Keeps-raise_if (leb (2 ^ 63) n) database

below : (n : ℕ) → leb (2 ^ 63) n ≡ false → Fits n
below n h = ground arith

upsert-Sound :
    (r : EncryptedRecord)
    → RowSound r
    → Keeps TablesSound (execute (λ (c : Conn). record c { records = upsert_row r c.records }))
upsert-Sound r p = execute-Sound _ (λ c h. record {
  keyed = upsert_row-Keyed r c.records h.keyed;
  rows = All-upsert_row RowSound r c.records p h.rows;
  bundles = h.bundles;
})

bind_option-Sound :
    (o : Option ℕ) (m : Sql (Unit {0}))
    → (OptionFits o → Keeps TablesSound m)
    → Keeps TablesSound (bind_option o >> m)
unfolding bind_option bind_u64
bind_option-Sound none m k = Keeps-bind (pure tt) (λ u. m) (Keeps-pure tt) (λ u. k tt)
bind_option-Sound (some n) m k = Keeps-guarded (leb (2 ^ 63) n) database m (λ e. k (below n e))

pub upsert_record-Sound :
    (r : EncryptedRecord) → SyncedAt r.sync_state r → Keeps TablesSound (upsert_record r)
unfolding upsert_record bind_u64
upsert_record-Sound r sync = Keeps-guarded (leb (2 ^ 63) r.logical_clock) database _ (λ e.
    bind_option-Sound r.last_synced_clock _
      (λ g. upsert-Sound r (below r.logical_clock e, (g, sync))))

insert_bundle-Sound :
    (bundle : RecoveryBundle) (fs : List Bool) (c : Conn)
    → TablesSound c
    → TablesSound (insert_recovery_bundle bundle (record c { faults = fs })).1
unfolding insert_recovery_bundle execute statement answered ◌>>=◌ modify
insert_bundle-Sound bundle [] c h = record { keyed = h.keyed; rows = h.rows; bundles = omega arith }
insert_bundle-Sound bundle (true ∷ fs) c h = same-TablesSound h refl refl
insert_bundle-Sound bundle (false ∷ []) c h = record {
  keyed = h.keyed;
  rows = h.rows;
  bundles = omega arith;
}
insert_bundle-Sound bundle (false ∷ true ∷ fs) c h = record {
  keyed = h.keyed;
  rows = h.rows;
  bundles = omega arith;
}
insert_bundle-Sound bundle (false ∷ false ∷ fs) c h = record {
  keyed = h.keyed;
  rows = h.rows;
  bundles = omega arith;
}

pub insert_recovery_bundle-Sound :
    (bundle : RecoveryBundle) → Keeps TablesSound (insert_recovery_bundle bundle)
insert_recovery_bundle-Sound bundle = record { at = λ c h. insert_bundle-Sound bundle c.faults c h }

pub insert_header-Sound : (header : VaultHeader) → Keeps TablesSound (insert_header header)
unfolding insert_header
insert_header-Sound header = Keeps-bind _ _ (bind_u64-Sound header.last_logical_clock) (λ u.
    Keeps-bind _ _ statement-Sound (λ w. Keeps-bind _ _ (Keeps-gets _) (λ found.
      Keeps-bind _ _ (Keeps-raise_if _ _)
        (λ done. Keeps-modify _ (λ c h. same-TablesSound h refl refl)))))

pub set_last_logical_clock-Sound :
    (clock : ℕ) (now : ℤ) → Keeps TablesSound (set_last_logical_clock clock now)
unfolding set_last_logical_clock
set_last_logical_clock-Sound clock now =
    Keeps-bind _ _ (bind_u64-Sound clock) (λ u. elsewhere-Sound _ (λ c. refl) (λ c. refl))

pub bump_logical_clock-Sound : (now : ℤ) → Keeps TablesSound (bump_logical_clock now)
unfolding bump_logical_clock
bump_logical_clock-Sound now = Keeps-bind _ _ (query-Sound _) (λ found.
    Keeps-bind _ _ (Keeps-ok_or found _)
      (λ header. Keeps-bind _ _ (set_last_logical_clock-Sound _ now) (λ u. Keeps-pure _)))
