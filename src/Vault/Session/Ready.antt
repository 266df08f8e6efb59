-- ===== src/Vault/Session/Ready.antt =====
-- The common steps of the calls of VaultStore in crates/seance-vault/src/lib.rs where they return.
use seance.Prelude.{Bool, false, some, Result, ok, ◌≡◌, refl}
use seance.Vault.Exec.{raise_if, ◌>>=◌}
use seance.Vault.Model.{VaultHeader}
use seance.Vault.Failure.{VaultError}
use seance.Vault.Storage.{Conn, Sql}
use seance.Vault.Crypto.{SecretKey}
use seance.Vault.Session.{VaultStore, sql, get_header, get_master_key}

module _ {D : Type 0} where
  pub sql_lem :
      {A : Type 0} (m : Sql A) (s : VaultStore D) (r : Result VaultError A) (c : Conn)
      → m s.conn ≡ (r, c)
      → sql m s ≡ (r, record s { conn = c })
  unfolding sql
  sql_lem m s r c e = rw e refl

  pub get_header-some :
      (e : VaultError) (s : VaultStore D) (h : VaultHeader)
      → s.header ≡ some h
      → get_header e s ≡ (ok h, s)
  unfolding get_header ◌>>=◌
  get_header-some e s h p = simp p refl

  pub get_master_key-some :
      (s : VaultStore D) (key : SecretKey)
      → s.master_key ≡ some key
      → get_master_key s ≡ (ok key, s)
  unfolding get_master_key ◌>>=◌
  get_master_key-some s key p = simp p refl

  pub raise_if-false :
      (test : Bool) (e : VaultError) (s : VaultStore D)
      → test ≡ false
      → raise_if test e s ≡ (ok tt, s)
  unfolding raise_if ◌>>=◌
  raise_if-false test e s p = rw p refl
