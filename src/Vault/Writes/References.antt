-- ===== src/Vault/Writes/References.antt =====
-- The deletions of crates/seance-vault/src/lib.rs that look for references first.
use seance.Prelude.{
  Bool, true, false, List, Text, All, list_beq, nat_eq, list_eq, ok, ◌≡◌, refl, ap, ◌∙◌, sym, subst,
}
use seance.Prelude.Compare.{ℤ}
use seance.Prelude.SortBy.{any}
use seance.Vault.Exec.{raise_if, ◌>>=◌, ◌>>◌, for_each}
use seance.Vault.Exec.Keeps.{Keeps, Keeps-bind, Keeps-gets, Keeps-lift}
use seance.Vault.Exec.Returns.{bind-Steps, for_each-passed}
use seance.Vault.Model.{
  RecordKind, host_kind, password_credential_kind, private_key_kind, EncryptedRecord,
}
use seance.Vault.Failure.{
  VaultError, credential_in_use, private_key_in_use, host_in_use_by_port_forward,
}
use seance.Vault.Storage.{list_records_by_kind}
use seance.Vault.Storage.Rows.{Keyed}
use seance.Vault.Session.{VaultStore, Method}
use seance.Vault.Profiles.{VaultHostProfile, VaultPortForwardProfile, Stored}
use seance.Vault.Records.{delete_record}
use seance.Vault.Records.Deletion.{Rows, query-Has, sql-Rows, Deleted, delete_record-Deleted}
use seance.Vault.Items.{
  Libraries, list_as, active_hosts, active_port_forwards, uses_credential, uses_key,
}
use seance.Vault.Writes.{
  ensure_credential_not_referenced, ensure_private_key_not_referenced, ensure_host_not_referenced,
  delete_password_credential, delete_private_key, delete_host_profile,
}

module _ {D : Type 0} {rows : List EncryptedRecord} where
  list_as-Rows :
      {T S : Type 0} (lib : Libraries) (stored : Stored T) (kind : RecordKind) (f : T → ℤ → S)
      → Keeps (Rows {D = D} rows) (list_as lib stored kind f)
  unfolding list_as list_records_by_kind
  list_as-Rows lib stored kind f =
      Keeps-bind _ _ (sql-Rows _ (query-Has _))
        (λ records. Keeps-bind _ _ (Keeps-gets _) (λ s. Keeps-lift _))

  active_hosts-Rows : (lib : Libraries) → Keeps (Rows {D = D} rows) (active_hosts lib)
  unfolding active_hosts
  active_hosts-Rows lib = list_as-Rows lib _ host_kind _

  active_port_forwards-Rows :
      (lib : Libraries) → Keeps (Rows {D = D} rows) (active_port_forwards lib)
  unfolding active_port_forwards
  active_port_forwards-Rows lib = list_as-Rows lib _ _ _

-- A deletion that went through: what could refer to the record was listed, and nothing of it did.
pub record Unreferenced {D X : Type 0} (list : Method D (List X)) (uses : X → Bool) (id : Text)
    (kind : RecordKind) (now : ℤ) (s t : VaultStore D) : Type 0 where
  pub listed : List X
  pub state : VaultStore D
  pub answer : list s ≡ (ok listed, state)
  pub same_rows : state.conn.records ≡ s.conn.records
  pub unused : All (λ x. uses x ≡ false) listed
  pub deleted : Deleted id kind now state t

module _ {D X : Type 0} (list : Method D (List X)) (uses : X → Bool) (e : X → VaultError) where
  abbrev guard : Method D (Unit {0})
  guard = list >>= λ xs. for_each xs (λ x. raise_if (uses x) (e x))

  guarded-Unreferenced :
      (id : Text) (kind : RecordKind) (bumped_at now : ℤ) (s : VaultStore D)
      → ((rows : List EncryptedRecord) → Keeps (Rows rows) list)
      → Keyed s.conn.records
      → ((guard >> delete_record id kind bumped_at now) s).0 ≡ ok true
      → Unreferenced list uses id kind now s ((guard >> delete_record id kind bumped_at now) s).1
  guarded-Unreferenced id kind bumped_at now s keeps k h =
      let g = bind-Steps guard _ s true h in
      let l = bind-Steps list _ s g.value (ap (λ r. r.0) g.step) in
      let same : l.state.conn.records ≡ s.conn.records =
        ap (λ r. r.1.conn.records) (sym l.step)
        ∙ ((keeps s.conn.records).at s (record { same = refl })).same in
      let p = for_each-passed uses e l.value l.state l.rest in
      let after : g.state ≡ l.state = ap (λ r. r.1) (sym g.step ∙ l.whole ∙ p.1) in
      record {
        listed = l.value;
        state = l.state;
        answer = l.step;
        same_rows = same;
        unused = p.0;
        deleted = rw g.whole (
            subst (λ x. Deleted id kind now l.state (delete_record id kind bumped_at now x).1)
              (sym after)
              (delete_record-Deleted id kind bumped_at now l.state (subst Keyed (sym same) k)
                (ap (λ x. (delete_record id kind bumped_at now x).0) (sym after) ∙ g.rest)));
      }

module _ {D : Type 0} (lib : Libraries) where
  -- Deleting a credential returns true, whatever SQLite refuses meanwhile: no host that the vault lists
  -- signs in with the credential or opens a key with it, and the record stays as a tombstone, the
  -- only change to the table.
  pub delete_password_credential-Unreferenced :
      (id : Text) (bumped_at now : ℤ) (s : VaultStore D)
      → Keyed s.conn.records
      → (delete_password_credential lib id bumped_at now s).0 ≡ ok true
      → Unreferenced
          (active_hosts lib)
          (λ (h : VaultHostProfile). any (uses_credential id) h.auth_order)
          id
          password_credential_kind
          now
          s
          (delete_password_credential lib id bumped_at now s).1
  unfolding delete_password_credential ensure_credential_not_referenced
  delete_password_credential-Unreferenced id bumped_at now s k h =
      guarded-Unreferenced (active_hosts lib) _ (λ host. credential_in_use id host.id) id
        password_credential_kind bumped_at now s (λ rows. active_hosts-Rows lib) k h

  -- Deleting a key returns true, whatever SQLite refuses meanwhile: no host that the vault lists
  -- signs in with the key, and the record stays as a tombstone, the only change to the table.
  pub delete_private_key-Unreferenced :
      (id : Text) (bumped_at now : ℤ) (s : VaultStore D)
      → Keyed s.conn.records
      → (delete_private_key lib id bumped_at now s).0 ≡ ok true
      → Unreferenced
          (active_hosts lib)
          (λ (h : VaultHostProfile). any (uses_key id) h.auth_order)
          id
          private_key_kind
          now
          s
          (delete_private_key lib id bumped_at now s).1
  unfolding delete_private_key ensure_private_key_not_referenced
  delete_private_key-Unreferenced id bumped_at now s k h =
      guarded-Unreferenced (active_hosts lib) _ (λ host. private_key_in_use id host.id) id
        private_key_kind bumped_at now s (λ rows. active_hosts-Rows lib) k h

  -- Deleting a host returns true, whatever SQLite refuses meanwhile: no port forward that the vault
  -- lists belongs to the host, and the record stays as a tombstone, the only change to the table.
  pub delete_host_profile-Unreferenced :
      (id : Text) (bumped_at now : ℤ) (s : VaultStore D)
      → Keyed s.conn.records
      → (delete_host_profile lib id bumped_at now s).0 ≡ ok true
      → Unreferenced
          (active_port_forwards lib)
          (λ (p : VaultPortForwardProfile). list_beq p.host_id id)
          id
          host_kind
          now
          s
          (delete_host_profile lib id bumped_at now s).1
  unfolding delete_host_profile ensure_host_not_referenced
  delete_host_profile-Unreferenced id bumped_at now s k h =
      guarded-Unreferenced (active_port_forwards lib) _ (λ p. host_in_use_by_port_forward id p.id)
        id host_kind bumped_at now s (λ rows. active_port_forwards-Rows lib) k h
