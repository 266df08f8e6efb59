-- ===== src/Vault/Session/Enrollment.antt =====
-- Enrolling the device in crates/seance-vault/src/lib.rs: what it leaves alone.
use seance.Prelude.{Option, none, some, Text, Result, ok, err, ◌≡◌, refl, ◌∙◌, sym, subst}
use seance.Vault.Exec.{pure, gets, modify, caught, either}
use seance.Vault.Exec.Keeps.{
  Keeps, Keeps-bind, Keeps-modify, Keeps-gets, Keeps-pure, Keeps-ok_or, Keeps-lift, Keeps-either,
}
use seance.Vault.Model.{Bytes}
use seance.Vault.Failure.{VaultError}
use seance.Vault.Storage.{
  Conn, Sql, statement, query, execute, set_local_state, get_local_state, delete_local_state,
  upsert_device_enrollment,
}
use seance.Vault.Storage.Quiet.{Quiet, statement-Quiet}
use seance.Vault.Crypto.{Primitives}
use seance.Vault.Session.{
  VaultStore, Method, DeviceSecretStore, DeviceDraws, sql, quietly, get_header, get_master_key,
  own_device_id, set_secret, persist_device_unlock_message, ensure_device_enrollment,
  refresh_device_enrollment,
}

-- What enrolling the device leaves alone.
pub record Kept {D : Type 0} (t s : VaultStore D) : Type 0 where
  pub quiet : Quiet s.conn
  pub header : s.header ≡ t.header
  pub stored_header : s.conn.vault_header ≡ t.conn.vault_header
  pub bundles : s.conn.recovery_bundles ≡ t.conn.recovery_bundles
  pub records : s.conn.records ≡ t.conn.records
  pub master_key : s.master_key ≡ t.master_key
  pub last_unlock_method : s.last_unlock_method ≡ t.last_unlock_method

-- The same of a connection.
record ConnKept (t c : Conn) : Type 0 where
  quiet : Quiet c
  vault_header : c.vault_header ≡ t.vault_header
  bundles : c.recovery_bundles ≡ t.recovery_bundles
  records : c.records ≡ t.records

module _ {t : Conn} where
  ConnKept-statement : Keeps (ConnKept t) statement
  ConnKept-statement = record {
    at = λ c h. subst (λ x. ConnKept t x.1) (sym (statement-Quiet c h.quiet)) h;
  }

  ConnKept-query : {A : Type 0} (f : Conn → A) → Keeps (ConnKept t) (query f)
  unfolding query
  ConnKept-query f = Keeps-bind statement (λ u. gets f) ConnKept-statement (λ u. Keeps-gets f)

  ConnKept-execute :
      (f : Conn → Conn)
      → ((c : Conn) → ConnKept t c → ConnKept t (f c))
      → Keeps (ConnKept t) (execute f)
  unfolding execute
  ConnKept-execute f keep =
      Keeps-bind statement (λ u. modify f) ConnKept-statement (λ u. Keeps-modify f keep)

  same_tables :
      {c d : Conn}
      → ConnKept t c
      → d.faults ≡ c.faults
      → d.vault_header ≡ c.vault_header
      → d.recovery_bundles ≡ c.recovery_bundles
      → d.records ≡ c.records
      → ConnKept t d
  same_tables h q p r w = record {
    quiet = q ∙ h.quiet;
    vault_header = p ∙ h.vault_header;
    bundles = r ∙ h.bundles;
    records = w ∙ h.records;
  }

module _ {D : Type 0} {t : VaultStore D} where
  Kept-sql : {A : Type 0} (m : Sql A) → Keeps (ConnKept t.conn) m → Keeps (Kept t) (sql m)
  unfolding sql
  Kept-sql m k = record {
    at = λ s h.
        let c : ConnKept t.conn (m s.conn).1 = k.at s.conn (record {
          quiet = h.quiet;
          vault_header = h.stored_header;
          bundles = h.bundles;
          records = h.records;
        }) in
        record {
          quiet = c.quiet;
          header = h.header;
          stored_header = c.vault_header;
          bundles = c.bundles;
          records = c.records;
          master_key = h.master_key;
          last_unlock_method = h.last_unlock_method;
        };
  }

  Kept-query : {A : Type 0} (f : Conn → A) → Keeps (Kept t) (sql (query f))
  Kept-query f = Kept-sql (query f) (ConnKept-query f)

  Kept-execute :
      (f : Conn → Conn)
      → ((c : Conn) → ConnKept t.conn c → ConnKept t.conn (f c))
      → Keeps (Kept t) (sql (execute f))
  Kept-execute f keep = Kept-sql (execute f) (ConnKept-execute f keep)

  Kept-set_local_state : (key value : Text) → Keeps (Kept t) (sql (set_local_state key value))
  unfolding set_local_state
  Kept-set_local_state key value = Kept-execute _ (λ c h. same_tables h refl refl refl refl)

  Kept-persist : (message : Option Text) → Keeps (Kept t) (persist_device_unlock_message message)
  unfolding persist_device_unlock_message quietly delete_local_state
  Kept-persist none =
      Keeps-either _ _ _ (Kept-execute _ (λ c h. same_tables h refl refl refl refl))
        (λ u. Keeps-pure u) (λ e. Keeps-pure tt)
  Kept-persist (some message) =
      Keeps-either _ _ _ (Kept-set_local_state _ message) (λ u. Keeps-pure u) (λ e. Keeps-pure tt)

  Kept-own_device_id :
      (lib : Primitives) (secrets : DeviceSecretStore D) (found : Option Text) (created : Text)
      → Keeps (Kept t) (own_device_id lib secrets found created)
  unfolding own_device_id
  Kept-own_device_id lib secrets none created =
      Keeps-bind _ _ (Kept-set_local_state _ created) (λ u. Keeps-pure created)
  Kept-own_device_id lib secrets (some id) created = Keeps-pure id

  Kept-set_secret :
      (lib : Primitives) (secrets : DeviceSecretStore D) (account : Text) (bytes : Bytes)
      → Keeps (Kept t) (set_secret lib secrets account bytes)
  unfolding set_secret
  Kept-set_secret lib secrets account bytes = record {
    at = λ s h. record {
      quiet = h.quiet;
      header = h.header;
      stored_header = h.stored_header;
      bundles = h.bundles;
      records = h.records;
      master_key = h.master_key;
      last_unlock_method = h.last_unlock_method;
    };
  }

  Kept-ensure_device_enrollment :
      (lib : Primitives) (secrets : DeviceSecretStore D) (device_name : Text) (draws : DeviceDraws)
      → Keeps (Kept t) (ensure_device_enrollment lib secrets device_name draws)
  unfolding ensure_device_enrollment get_header get_master_key get_local_state
      upsert_device_enrollment
  Kept-ensure_device_enrollment lib secrets device_name draws =
      Keeps-bind _ _ (Keeps-bind _ _ (Keeps-gets _) (λ o. Keeps-ok_or o _)) (λ header.
        Keeps-bind _ _ (Keeps-bind _ _ (Keeps-gets _) (λ o. Keeps-ok_or o _)) (λ master_key.
          Keeps-bind _ _ (Kept-query _) (λ found.
            Keeps-bind _ _ (Kept-own_device_id lib secrets found _) (λ device_id.
              Keeps-bind _ _ (Kept-set_secret lib secrets _ _) (λ done.
                Keeps-bind _ _ (Keeps-lift _)
                  (λ envelope. Kept-execute _ (λ c h. same_tables h refl refl refl refl)))))))

  Kept-refresh :
      (lib : Primitives) (secrets : DeviceSecretStore D) (device_name : Text) (draws : DeviceDraws)
      → Keeps (Kept t) (refresh_device_enrollment lib secrets device_name draws)
  unfolding refresh_device_enrollment
  Kept-refresh lib secrets device_name draws =
      Keeps-either _ _ _ (Kept-ensure_device_enrollment lib secrets device_name draws)
        (λ done. Kept-persist none) (λ e. Kept-persist (some _))

module _ {D : Type 0} where
  Kept-self : (t : VaultStore D) → Quiet t.conn → Kept t t
  Kept-self t q = record {
    quiet = q;
    header = refl;
    stored_header = refl;
    bundles = refl;
    records = refl;
    master_key = refl;
    last_unlock_method = refl;
  }

  either_returns :
      {A : Type 0} (r : Result VaultError A × VaultStore D) (f : A → Method D (Unit {0}))
      (g : VaultError → Method D (Unit {0}))
      → ((a : A) (s : VaultStore D) → (f a s).0 ≡ ok tt)
      → ((e : VaultError) (s : VaultStore D) → (g e s).0 ≡ ok tt)
      → (caught r.0 f g r.1).0 ≡ ok tt
  unfolding caught
  either_returns (ok a, s) f g p q = p a s
  either_returns (err e, s) f g p q = q e s

  persist_returns :
      (message : Option Text) (s : VaultStore D)
      → (persist_device_unlock_message message s).0 ≡ ok tt
  unfolding persist_device_unlock_message quietly pure either
  persist_returns none s = either_returns _ pure (λ e. pure tt) (λ a t. refl) (λ e t. refl)
  persist_returns (some message) s =
      either_returns _ pure (λ e. pure tt) (λ a t. refl) (λ e t. refl)

  -- Enrolling the device never fails the call, and changes nothing that opens the vault.
  pub refresh_device_enrollment_lem :
      (lib : Primitives) (secrets : DeviceSecretStore D) (device_name : Text) (draws : DeviceDraws)
      (t : VaultStore D)
      → Quiet t.conn
      → ((refresh_device_enrollment lib secrets device_name draws t).0 ≡ ok tt)
        × Kept t (refresh_device_enrollment lib secrets device_name draws t).1
  unfolding refresh_device_enrollment either
  refresh_device_enrollment_lem lib secrets device_name draws t q = (
    either_returns _ _ _ (λ a s. persist_returns none s) (λ e s. persist_returns (some _) s),
    (Kept-refresh lib secrets device_name draws).at t (Kept-self t q),
  )
