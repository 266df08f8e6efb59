-- ===== src/Core/Vaults/Rename.antt =====
-- Renaming a vault, crates/seance-core/src/lib.rs.
use seance.Prelude.{
  false, not, some, if◌then◌else◌, is_empty, Text, trim, Result, ok, err, list_beq, nat_eq, list_eq,
  ◌≡◌, refl, ap, ◌∙◌,
}
use seance.Prelude.Assoc
use seance.Prelude.Assoc.{lookup-insert}
use seance.Config.Model.{ℤ, Runtime, VaultRegistryEntry, AppConfig, normalized}
use seance.Config.Validation.{ConfigError}
use seance.Config.Store.{Toml, Writes, ConfigStore}
use seance.Config.Store.Replace.{Updated, update-Updated}
use seance.Core.VaultState.{
  VaultStoreApi, ManagedVaultState, VaultError, VaultController, with_vaults, overwrite_entry,
  name_taken, config_updated, update_config, set_state,
}
use seance.Core.Vaults.{renamed, rename_state, rename_vault}

module _ {F S : Type 0} (r : Runtime F) (toml : Toml F) (api : VaultStoreApi S) where
  -- What a change of the configuration has done, by its answer: the vaults and the index stay.
  abbrev pub Configured :
      VaultController F S
      → AppConfig F
      → VaultController F S × Result (VaultError F) (Unit {0})
      → Type 0
  Configured c config (d, ok done) =
      (d.config.config ≡ normalized config)
      × (d.vaults ≡ c.vaults)
      × (d.auth_reference_index ≡ c.auth_reference_index)
  Configured c config (d, err e) =
      (d.config ≡ c.config)
      × (d.vaults ≡ c.vaults)
      × (d.auth_reference_index ≡ c.auth_reference_index)

  config_updated-Configured :
      (c : VaultController F S) (config : AppConfig F)
      (answer : ConfigStore F × Result (ConfigError F) (AppConfig F))
      → Updated r toml c.config config answer
      → Configured c config (config_updated r toml api c answer)
  unfolding config_updated
  config_updated-Configured c config (store, ok snapshot) h = (h.0, refl, refl)
  config_updated-Configured c config (store, err e) h = (h, refl, refl)

  pub update_config-Configured :
      (c : VaultController F S) (io : Writes) (f : AppConfig F → AppConfig F)
      → Configured c (f c.config.config) (update_config r toml api c io f)
  unfolding update_config
  update_config-Configured c io f =
      config_updated-Configured c (f c.config.config) _ (update-Updated r toml c.config io f)

  -- The config store by the answer: the new configuration, or the old store.
  abbrev pub ConfigBy :
      ConfigStore F → AppConfig F → VaultController F S × Result (VaultError F) (Unit {0}) → Type 0
  ConfigBy old config (d, ok done) = d.config.config ≡ normalized config
  ConfigBy old config (d, err e) = d.config ≡ old

  pub Configured-parts :
      (c : VaultController F S) (config : AppConfig F)
      (answer : VaultController F S × Result (VaultError F) (Unit {0}))
      → Configured c config answer
      → (answer.0.vaults ≡ c.vaults)
        × (answer.0.auth_reference_index ≡ c.auth_reference_index)
        × ConfigBy c.config config answer
  Configured-parts c config (d, ok done) h = (h.1, h.2, h.0)
  Configured-parts c config (d, err e) h = (h.1, h.2, h.0)

  pub update_config-parts :
      (c : VaultController F S) (io : Writes) (f : AppConfig F → AppConfig F)
      → ((update_config r toml api c io f).0.vaults ≡ c.vaults)
        × ((update_config r toml api c io f).0.auth_reference_index ≡ c.auth_reference_index)
        × ConfigBy c.config (f c.config.config) (update_config r toml api c io f)
  update_config-parts c io f =
      Configured-parts c (f c.config.config) (update_config r toml api c io f)
        (update_config-Configured c io f)

  -- The configuration with the vault's new entry.
  abbrev pub config_renamed : AppConfig F → Text → VaultRegistryEntry → AppConfig F
  config_renamed config vault_id entry =
      with_vaults (λ v. record v { entries = overwrite_entry vault_id entry v.entries }) config

  rename_passes :
      (c : VaultController F S) (io : Writes) (vault_id name : Text) (now : ℤ)
      (state : ManagedVaultState S)
      → is_empty (trim name) ≡ false
      → name_taken (λ id. not (list_beq id vault_id)) (trim name) c.vaults ≡ false
      → Assoc.lookup vault_id c.vaults ≡ some state
      → rename_vault r toml api c io vault_id name now
        ≡ rename_state r toml api c io vault_id (trim name) now state
  unfolding rename_vault
  rename_passes c io vault_id name now state a b e = rw (rename_vault, a, b, e) refl

  rename_state-parts :
      (c : VaultController F S) (io : Writes) (vault_id name : Text) (now : ℤ)
      (state : ManagedVaultState S)
      → let entry = renamed r toml api state.entry name now in
        let answer = rename_state r toml api c io vault_id name now state in
        (answer.0.vaults ≡ Assoc.insert vault_id (record state { entry = entry }) c.vaults)
        × (answer.0.auth_reference_index ≡ c.auth_reference_index)
        × ConfigBy c.config (config_renamed c.config.config vault_id entry) answer
  unfolding rename_state set_state
  rename_state-parts c io vault_id name now state =
      let entry = renamed r toml api state.entry name now in
      update_config-parts (set_state r toml api c vault_id (record state { entry = entry })) io
        (λ config. config_renamed config vault_id entry)

-- A rename to a name that is not blank and that no other vault has: in memory the vault has its new
-- name whatever the config store answers, the other vaults and the index of hosts, with the vault's
-- old name in it, stay as they were, and on an error the config store keeps the old name too.
pub rename_vault_lem :
    {F S : Type 0} (r : Runtime F) (toml : Toml F) (api : VaultStoreApi S) (c : VaultController F S)
    (io : Writes) (vault_id name : Text) (now : ℤ) (state : ManagedVaultState S) (other : Text)
    → is_empty (trim name) ≡ false
    → name_taken (λ id. not (list_beq id vault_id)) (trim name) c.vaults ≡ false
    → Assoc.lookup vault_id c.vaults ≡ some state
    → let entry = renamed r toml api state.entry (trim name) now in
      let answer = rename_vault r toml api c io vault_id name now in
      (Assoc.lookup other answer.0.vaults ≡ (
        if list_beq vault_id other
        then some (record state { entry = entry })
        else Assoc.lookup other c.vaults))
      × (answer.0.auth_reference_index ≡ c.auth_reference_index)
      × ConfigBy r toml api c.config
          (config_renamed r toml api c.config.config vault_id entry)
          answer
rename_vault_lem r toml api c io vault_id name now state other a b e =
    let parts = rename_state-parts r toml api c io vault_id (trim name) now state in
    let vaults = ap (Assoc.lookup other) parts.0 ∙ lookup-insert vault_id other _ c.vaults in
    rw (rename_passes r toml api c io vault_id name now state a b e) (vaults, parts.1, parts.2)
