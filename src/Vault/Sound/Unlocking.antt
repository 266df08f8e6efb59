-- ===== src/Vault/Sound/Unlocking.antt =====
-- Creating, opening, locking and enrolling, in crates/seance-vault/src/lib.rs, on a sound vault.
use seance.Prelude.{Bool, true, false, Option, none, some, Text, Result, ok, err, refl}
use seance.Prelude.Compare.{ℤ}
use seance.Vault.Exec.{modify}
use seance.Vault.Exec.Keeps.{
  Keeps, Keeps-pure, Keeps-raise, Keeps-lift, Keeps-gets, Keeps-ok_or, Keeps-if, Keeps-raise_if,
  Keeps-modify, Keeps-bind, Keeps-either,
}
use seance.Vault.Model.{Bytes, VaultHeader, DeviceEnrollment, UnlockMethod, device}
use seance.Vault.Failure.{
  DeviceSecretError, backend, missing_secret, unavailable_in_this_build, VaultError,
}
use seance.Vault.Storage.{
  Conn, Sql, query, load_recovery_bundle, upsert_device_enrollment, load_device_enrollment,
  update_device_last_used, set_local_state, get_local_state, delete_local_state,
  update_header_after_rotation,
}
use seance.Vault.Crypto.{Primitives, SecretKey, from_slice, decrypt, device_wrap_aad}
use seance.Vault.Session.{
  DeviceSecretStore, Method, DeviceDraws, sql, quietly, or_none, load_device_id, load_enrollment,
  status, lock, get_header, get_master_key, set_unlocked, set_secret, own_device_id,
  persist_device_unlock_message, ensure_device_enrollment, refresh_device_enrollment,
}
use seance.Vault.Passphrase.{
  RecoveryDraws, get_bundle, create_vault, unlock_with_passphrase, rotate_passphrase,
}
use seance.Vault.Device.{
  refused, or_reenroll, unlock_with_secret, unlock_by, ask_secret, unlock_enrolled, unlock_on,
  try_unlock_with_device,
}
use seance.Vault.Sound.{TablesSound, IsSound}
use seance.Vault.Sound.Statements.{
  query-Sound, elsewhere-Sound, insert_header-Sound, insert_recovery_bundle-Sound,
}

module _ {D : Type 0} where
  pub sql-Sound : {A : Type 0} (m : Sql A) → Keeps TablesSound m → Keeps (IsSound {D = D}) (sql m)
  unfolding sql
  sql-Sound m k = record {
    at = λ s h. record { tables = k.at s.conn h.tables; by_method = h.by_method };
  }

  pub asked-Sound : {A : Type 0} (f : Conn → A) → Keeps (IsSound {D = D}) (sql {A = A} (query f))
  asked-Sound f = sql-Sound _ (query-Sound f)

  -- A change of the header in memory.
  pub header-Sound :
      (f : Option VaultHeader → Option VaultHeader)
      → Keeps (IsSound {D = D}) (modify {E = VaultError} (λ s. record s { header = f s.header }))
  header-Sound f = Keeps-modify _ (λ s h. record { tables = h.tables; by_method = h.by_method })

  pub get_header-Sound : (e : VaultError) → Keeps (IsSound {D = D}) (get_header e)
  unfolding get_header
  get_header-Sound e = Keeps-bind _ _ (Keeps-gets _) (λ o. Keeps-ok_or o e)

  pub get_master_key-Sound : Keeps (IsSound {D = D}) get_master_key
  unfolding get_master_key
  get_master_key-Sound = Keeps-bind _ _ (Keeps-gets _) (λ o. Keeps-ok_or o _)

  pub get_bundle-Sound : Keeps (IsSound {D = D}) get_bundle
  unfolding get_bundle load_recovery_bundle
  get_bundle-Sound = Keeps-bind _ _ (asked-Sound _) (λ o. Keeps-ok_or o _)

  set_unlocked-Sound :
      (key : SecretKey) (how : UnlockMethod) → Keeps (IsSound {D = D}) (set_unlocked key how)
  unfolding set_unlocked
  set_unlocked-Sound key how =
      Keeps-modify _ (λ s h. record { tables = h.tables; by_method = refl })

  pub lock-Sound : Keeps (IsSound {D = D}) lock
  unfolding lock
  lock-Sound = Keeps-modify _ (λ s h. record { tables = h.tables; by_method = refl })

  set_local_state-Sound :
      (key value : Text) → Keeps (IsSound {D = D}) (sql (set_local_state key value))
  unfolding set_local_state
  set_local_state-Sound key value = sql-Sound _ (elsewhere-Sound _ (λ c. refl) (λ c. refl))

  persist-Sound :
      (message : Option Text) → Keeps (IsSound {D = D}) (persist_device_unlock_message message)
  unfolding persist_device_unlock_message quietly delete_local_state
  persist-Sound none =
      Keeps-either _ _ _ (sql-Sound _ (elsewhere-Sound _ (λ c. refl) (λ c. refl)))
        (λ u. Keeps-pure u) (λ e. Keeps-pure tt)
  persist-Sound (some message) =
      Keeps-either _ _ _ (set_local_state-Sound _ message) (λ u. Keeps-pure u) (λ e. Keeps-pure tt)

  or_none-Sound :
      {A : Type 0} (m : Method D (Option A)) → Keeps IsSound m → Keeps IsSound (or_none m)
  unfolding or_none
  or_none-Sound m k = Keeps-either _ _ _ k (λ o. Keeps-pure o) (λ e. Keeps-pure none)

  load_device_id-Sound :
      (header : Option VaultHeader) → Keeps (IsSound {D = D}) (load_device_id header)
  unfolding load_device_id get_local_state
  load_device_id-Sound none = Keeps-pure none
  load_device_id-Sound (some header) = or_none-Sound _ (asked-Sound _)

  load_enrollment-Sound : (id : Option Text) → Keeps (IsSound {D = D}) (load_enrollment id)
  unfolding load_enrollment load_device_enrollment
  load_enrollment-Sound none = Keeps-pure none
  load_enrollment-Sound (some id) = or_none-Sound _ (asked-Sound _)

  pub status-Sound : Keeps (IsSound {D = D}) status
  unfolding status get_local_state
  status-Sound = Keeps-bind _ _ (or_none-Sound _ (asked-Sound _)) (λ message.
      Keeps-bind _ _ (Keeps-gets _) (λ header. Keeps-bind _ _ (load_device_id-Sound header) (λ id.
        Keeps-bind _ _
          (Keeps-if _ _ _ (Keeps-bind _ _ (load_enrollment-Sound id) (λ enrollment. Keeps-pure _))
            (Keeps-pure _))
          (λ available. Keeps-bind _ _ (Keeps-gets _) (λ s. Keeps-pure _)))))

module _ {D : Type 0} (lib : Primitives) (secrets : DeviceSecretStore D) where
  own_device_id-Sound :
      (found : Option Text) (created : Text)
      → Keeps IsSound (own_device_id lib secrets found created)
  unfolding own_device_id
  own_device_id-Sound none created =
      Keeps-bind _ _ (set_local_state-Sound _ created) (λ u. Keeps-pure created)
  own_device_id-Sound (some id) created = Keeps-pure id

  set_secret-Sound :
      (account : Text) (bytes : Bytes) → Keeps IsSound (set_secret lib secrets account bytes)
  unfolding set_secret
  set_secret-Sound account bytes = record {
    at = λ s h. record { tables = h.tables; by_method = h.by_method };
  }

  ensure_device_enrollment-Sound :
      (name : Text) (draws : DeviceDraws)
      → Keeps IsSound (ensure_device_enrollment lib secrets name draws)
  unfolding ensure_device_enrollment get_local_state upsert_device_enrollment
  ensure_device_enrollment-Sound name draws = Keeps-bind _ _ (get_header-Sound _) (λ header.
      Keeps-bind _ _ get_master_key-Sound (λ key. Keeps-bind _ _ (asked-Sound _) (λ found.
        Keeps-bind _ _ (own_device_id-Sound found _) (λ id.
          Keeps-bind _ _ (set_secret-Sound _ _) (λ done.
            Keeps-bind _ _ (Keeps-lift _)
              (λ envelope. sql-Sound _ (elsewhere-Sound _ (λ c. refl) (λ c. refl))))))))

  refresh-Sound :
      (name : Text) (draws : DeviceDraws)
      → Keeps IsSound (refresh_device_enrollment lib secrets name draws)
  unfolding refresh_device_enrollment
  refresh-Sound name draws =
      Keeps-either _ _ _ (ensure_device_enrollment-Sound name draws) (λ u. persist-Sound none)
        (λ e. persist-Sound (some _))

  pub create_vault-Sound :
      (text name : Text) (draws : RecoveryDraws) (device_draws : DeviceDraws)
      → Keeps IsSound (create_vault lib secrets text name draws device_draws)
  unfolding create_vault
  create_vault-Sound text name draws device_draws = Keeps-bind _ _ (Keeps-gets _) (λ existing.
      Keeps-bind _ _ (Keeps-raise_if _ _) (λ a. Keeps-bind _ _ (Keeps-raise_if _ _) (λ b.
        Keeps-bind _ _ (Keeps-lift _) (λ wrap_key.
          Keeps-bind _ _ (sql-Sound _ (insert_header-Sound _)) (λ c.
            Keeps-bind _ _ (Keeps-lift _) (λ envelope.
              Keeps-bind _ _ (sql-Sound _ (insert_recovery_bundle-Sound _)) (λ d.
                Keeps-bind _ _ (header-Sound _) (λ e.
                  Keeps-bind _ _ (set_unlocked-Sound _ _)
                    (λ f. refresh-Sound name device_draws)))))))))

  pub unlock_with_passphrase-Sound :
      (text name : Text) (draws : DeviceDraws)
      → Keeps IsSound (unlock_with_passphrase lib secrets text name draws)
  unfolding unlock_with_passphrase
  unlock_with_passphrase-Sound text name draws = Keeps-bind _ _ (get_header-Sound _) (λ header.
      Keeps-bind _ _ get_bundle-Sound (λ bundle. Keeps-bind _ _ (Keeps-lift _) (λ wrap_key.
        Keeps-bind _ _ (Keeps-lift _) (λ bytes.
          Keeps-bind _ _ (Keeps-lift _)
            (λ key. Keeps-bind _ _ (set_unlocked-Sound key _) (λ u. refresh-Sound name draws))))))

  pub rotate_passphrase-Sound :
      (old_text new_text : Text) (draws : RecoveryDraws)
      → Keeps IsSound (rotate_passphrase lib secrets old_text new_text draws)
  unfolding rotate_passphrase update_header_after_rotation
  rotate_passphrase-Sound old_text new_text draws = Keeps-bind _ _ (Keeps-raise_if _ _) (λ a.
      Keeps-bind _ _ (get_header-Sound _) (λ header. Keeps-bind _ _ get_bundle-Sound (λ bundle.
        Keeps-bind _ _ (Keeps-lift _) (λ old_key. Keeps-bind _ _ (Keeps-lift _) (λ bytes.
          Keeps-bind _ _ (Keeps-lift _) (λ new_key. Keeps-bind _ _ (Keeps-lift _) (λ wrapped.
            Keeps-bind _ _ (sql-Sound _ (insert_recovery_bundle-Sound _)) (λ b.
              Keeps-bind _ _ (sql-Sound _ (elsewhere-Sound _ (λ c. refl) (λ c. refl)))
                (λ d. header-Sound _)))))))))

  refused-Sound : (message : Text) → Keeps IsSound (refused lib secrets message)
  unfolding refused
  refused-Sound message = Keeps-bind _ _ (persist-Sound (some message)) (λ u. Keeps-pure false)

  or_reenroll-Sound :
      {A : Type 0} (r : Result VaultError A) (next : A → Method D Bool)
      → ((a : A) → Keeps IsSound (next a))
      → Keeps IsSound (or_reenroll lib secrets r next)
  unfolding or_reenroll
  or_reenroll-Sound (ok a) next k = k a
  or_reenroll-Sound (err e) next k = refused-Sound _

  unlock_with_secret-Sound :
      (header : VaultHeader) (enrollment : DeviceEnrollment) (secret : Bytes) (now : ℤ)
      → Keeps IsSound (unlock_with_secret lib secrets header enrollment secret now)
  unfolding unlock_with_secret update_device_last_used
  unlock_with_secret-Sound header enrollment secret now =
      or_reenroll-Sound (from_slice secret) _ (λ device_key.
        or_reenroll-Sound
          (decrypt lib device_key enrollment.wrapping_nonce enrollment.wrapped_master_key
            (device_wrap_aad header.vault_id enrollment.device_id))
          _
          (λ plaintext. or_reenroll-Sound (from_slice plaintext) _ (λ key.
            Keeps-bind _ _ (set_unlocked-Sound key device) (λ a.
              Keeps-bind _ _ (persist-Sound none) (λ b.
                Keeps-bind _ _ (sql-Sound _ (elsewhere-Sound _ (λ c. refl) (λ c. refl)))
                  (λ c. Keeps-pure true))))))

  unlock_by-Sound :
      (header : VaultHeader) (enrollment : DeviceEnrollment) (now : ℤ)
      (answer : Result DeviceSecretError (Option Bytes))
      → Keeps IsSound (unlock_by lib secrets header enrollment now answer)
  unfolding unlock_by
  unlock_by-Sound header enrollment now (ok (some secret)) =
      unlock_with_secret-Sound header enrollment secret now
  unlock_by-Sound header enrollment now (ok none) = Keeps-pure false
  unlock_by-Sound header enrollment now (err unavailable_in_this_build) = refused-Sound _
  unlock_by-Sound header enrollment now (err (backend message)) = Keeps-raise _
  unlock_by-Sound header enrollment now (err missing_secret) = Keeps-raise _

  unlock_enrolled-Sound :
      (header : VaultHeader) (id : Text) (now : ℤ) (enrollment : Option DeviceEnrollment)
      → Keeps IsSound (unlock_enrolled lib secrets header id now enrollment)
  unfolding unlock_enrolled ask_secret
  unlock_enrolled-Sound header id now none = Keeps-pure false
  unlock_enrolled-Sound header id now (some enrollment) = Keeps-if _ _ _ (Keeps-pure false) (
      Keeps-bind _ _ (record { at = λ s h. record { tables = h.tables; by_method = h.by_method } })
        (λ secret. unlock_by-Sound header (record enrollment { device_id = id }) now secret))

  unlock_on-Sound :
      (header : VaultHeader) (now : ℤ) (id : Option Text)
      → Keeps IsSound (unlock_on lib secrets header now id)
  unfolding unlock_on load_device_enrollment
  unlock_on-Sound header now none = Keeps-pure false
  unlock_on-Sound header now (some id) =
      Keeps-bind _ _ (asked-Sound _) (λ enrollment. unlock_enrolled-Sound header id now enrollment)

  pub try_unlock_with_device-Sound :
      (now : ℤ) → Keeps IsSound (try_unlock_with_device lib secrets now)
  unfolding try_unlock_with_device get_local_state
  try_unlock_with_device-Sound now =
      Keeps-bind _ _ (get_header-Sound _)
        (λ header. Keeps-bind _ _ (asked-Sound _) (λ id. unlock_on-Sound header now id))
