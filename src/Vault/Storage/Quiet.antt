-- ===== src/Vault/Storage/Quiet.antt =====
-- The statements of crates/seance-vault/src/storage.rs on a database that answers each of them.
use seance.Prelude.{
  ℕ, ◌+◌, ◌^◌, ◌<◌, false, Option, none, some, [], ◌∷◌, Text, leb, ok, ◌≡◌, refl, ◌∙◌, arith,
}
use seance.Prelude.Compare.{ℤ}
use mathlib.Core.Option
use seance.Vault.Exec.{raise_if, ◌>>=◌, bind_ok}
use seance.Vault.Model.{RecordKind, VaultHeader, RecoveryBundle, EncryptedRecord}
use seance.Vault.Storage.{
  Conn, statement, query, execute, bind_u64, bind_option, find, has_key, load_record, upsert_record,
  upsert_row, set_last_logical_clock, with_clock, bump_logical_clock, insert_recovery_bundle,
  insert_header,
}

-- A number that SQLite can hold.
abbrev pub Fits : ℕ → Type 0
Fits n = n < 2 ^ 63

abbrev pub OptionFits : Option ℕ → Type 0
OptionFits none = Unit
OptionFits (some n) = Fits n

-- No statement is going to fail.
abbrev pub Quiet : Conn → Type 0
Quiet c = c.faults ≡ []

pub statement-Quiet : (c : Conn) → Quiet c → statement c ≡ (ok tt, c)
unfolding statement
statement-Quiet c q = rw q refl

pub query-Quiet : {A : Type 0} (f : Conn → A) (c : Conn) → Quiet c → query f c ≡ (ok (f c), c)
unfolding query ◌>>=◌
query-Quiet f c q = rw (statement-Quiet c q) refl

pub execute-Quiet : (f : Conn → Conn) (c : Conn) → Quiet c → execute f c ≡ (ok tt, f c)
unfolding execute ◌>>=◌
execute-Quiet f c q = rw (statement-Quiet c q) refl

Fits-leb : (n : ℕ) → Fits n → leb (2 ^ 63) n ≡ false
Fits-leb n h = ground arith

pub bind_u64-Fits : (n : ℕ) (c : Conn) → Fits n → bind_u64 n c ≡ (ok tt, c)
unfolding bind_u64 ◌>>=◌
bind_u64-Fits n c h = rw (Fits-leb n h) refl

pub bind_option-OptionFits : (o : Option ℕ) (c : Conn) → OptionFits o → bind_option o c ≡ (ok tt, c)
unfolding bind_option ◌>>=◌
bind_option-OptionFits none c h = refl
bind_option-OptionFits (some n) c h = bind_u64-Fits n c h

pub load_record-Quiet :
    (id : Text) (kind : RecordKind) (c : Conn)
    → Quiet c
    → load_record id kind c ≡ (ok (find (has_key id kind) c.records), c)
unfolding load_record
load_record-Quiet id kind c q = query-Quiet _ c q

pub upsert_record-Quiet :
    (r : EncryptedRecord) (c : Conn)
    → Quiet c
    → Fits r.logical_clock
    → OptionFits r.last_synced_clock
    → upsert_record r c ≡ (ok tt, record c { records = upsert_row r c.records })
unfolding upsert_record ◌>>=◌
upsert_record-Quiet r c q f g =
    rw (bind_u64-Fits r.logical_clock c f)
      (rw (bind_option-OptionFits r.last_synced_clock c g) (execute-Quiet _ c q))

pub set_last_logical_clock-Quiet :
    (clock : ℕ) (now : ℤ) (c : Conn)
    → Quiet c
    → Fits clock
    → set_last_logical_clock clock now c
      ≡ (ok tt, record c { vault_header = Option.map (with_clock clock now) c.vault_header })
unfolding set_last_logical_clock ◌>>=◌
set_last_logical_clock-Quiet clock now c q f = rw (bind_u64-Fits clock c f) (execute-Quiet _ c q)

pub bump_logical_clock-Quiet :
    (now : ℤ) (c : Conn) (h : VaultHeader)
    → Quiet c
    → c.vault_header ≡ some h
    → Fits (h.last_logical_clock + 1)
    → bump_logical_clock now c ≡ (
      ok (h.last_logical_clock + 1),
      record c { vault_header = some (with_clock (h.last_logical_clock + 1) now h) },
    )
unfolding bump_logical_clock ◌>>=◌ with_clock
bump_logical_clock-Quiet now c h q e f =
    rw (query-Quiet (λ (d : Conn). d.vault_header) c q) (
      simp e (rw (set_last_logical_clock-Quiet (h.last_logical_clock + 1) now c q f) (simp e refl)))

pub insert_header-Quiet :
    (h : VaultHeader) (c : Conn)
    → Quiet c
    → c.vault_header ≡ none
    → Fits h.last_logical_clock
    → insert_header h c ≡ (ok tt, record c { vault_header = some h })
unfolding insert_header ◌>>=◌ raise_if
insert_header-Quiet h c q e f =
    rw (bind_u64-Fits h.last_logical_clock c f) (rw (statement-Quiet c q) (simp e refl))

pub insert_recovery_bundle-Quiet :
    (bundle : RecoveryBundle) (c : Conn)
    → Quiet c
    → insert_recovery_bundle bundle c ≡ (ok tt, record c { recovery_bundles = bundle ∷ [] })
unfolding insert_recovery_bundle
insert_recovery_bundle-Quiet bundle c q =
    let emptied : Conn = record c { recovery_bundles = [] } in
    bind_ok _ _ c emptied tt (execute-Quiet _ c q) ∙ execute-Quiet _ emptied q
