-- ===== src/Core/Vaults.antt =====
-- The calls of AppController on the registry of vaults in crates/seance-core/src/lib.rs. What opening
-- or unlocking a database gives, the clock and a new vault's id are given with each call.
pub mod Access
pub mod Current
pub mod Kept
pub mod Registry
pub mod Unlocking
pub mod Keeps
pub mod Reread
pub mod Removal
pub mod Rename
pub mod Tests
use seance.Prelude.{
  ℕ, Bool, true, false, not, ◌&&◌, Option, none, some, List, [], ◌∷◌, ◌++◌, map, if◌then◌else◌,
  is_empty, is_some, Text, codes, trim, Result, ok, err, ◌>>=◌, list_beq, nat_eq, list_eq,
}
use seance.Prelude.Assoc
use seance.Prelude.Member.{contains}
use seance.Prelude.SortBy.{any, retain}
use seance.Config.Keybindings.{eq_ignore_ascii_case}
use seance.Config.Model.{ℤ, Runtime, VaultRegistryEntry, VaultRegistryConfig, AppConfig}
use seance.Config.Validation.{ConfigError}
use seance.Config.Store.{Toml, Writes, ConfigStore, update}
use seance.Core.Sessions.{LifecyclePolicy}
use seance.Core.AuthIndex.{
  HostAuthSummary, AuthReferenceIndex, remove_vault_auth_reference_index,
  rebuild_vault_auth_reference_index,
}
use seance.Core.VaultState.{
  VaultStoreApi, ManagedVaultState, VaultError, VaultController, add_vault, with_vaults,
  overwrite_entry, without_id, unless_id, delete_entry, name_taken, config_updated, update_config,
  and_then, set_state, remove_index, open_hosts, rebuilt, rebuild_index, lifecycle_policy_from,
  empty_name, name_exists, not_found, not_open, create_failed, open_failed, unlock_failed,
  still_unlocked, index_failed, remove_file_failed, config_failed,
}

module _ {F S : Type 0} (r : Runtime F) (toml : Toml F) (api : VaultStoreApi S) where
  abbrev Controller : Type 0
  Controller = VaultController F S

  abbrev Answer : Type 0
  Answer = Controller × Result (VaultError F) (Unit {0})

  -- `created` is the new database, `none` where it cannot be made.
  pub create_named_vault : Controller → Writes → Text → Text → ℤ → Option S → Answer
  unfolding set_state add_vault rebuild_index update_config and_then name_taken
  create_named_vault c io name vault_id now none =
      if is_empty (trim name)
      then (c, err empty_name)
      else if name_taken (λ id. true) (trim name) c.vaults
      then (c, err name_exists)
      else (c, err create_failed)
  create_named_vault c io name vault_id now (some store) =
      let entry : VaultRegistryEntry = record {
        id = vault_id;
        name = trim name;
        db_file = vault_id ++ codes ".sqlite";
        created_at = now;
        updated_at = now;
      } in
      if is_empty (trim name)
      then (c, err empty_name)
      else if name_taken (λ id. true) (trim name) c.vaults
      then (c, err name_exists)
      else and_then r toml api (update_config r toml api c io (with_vaults (add_vault entry))) (λ d.
        rebuild_index r toml api
          (set_state r toml api d vault_id
            (record { entry = entry; store = some store; availability_error = none }))
          vault_id)

  pub renamed : VaultRegistryEntry → Text → ℤ → VaultRegistryEntry
  renamed entry name now = record entry { name = name; updated_at = now }

  pub rename_state : Controller → Writes → Text → Text → ℤ → ManagedVaultState S → Answer
  unfolding renamed set_state update_config
  rename_state c io vault_id name now state =
      let entry = renamed state.entry name now in
      update_config r toml api (set_state r toml api c vault_id (record state { entry = entry })) io
        (with_vaults (λ v. record v { entries = overwrite_entry vault_id entry v.entries }))

  pub rename_vault : Controller → Writes → Text → Text → ℤ → Answer
  unfolding rename_state name_taken
  rename_vault c io vault_id name now =
      if is_empty (trim name)
      then (c, err empty_name)
      else if name_taken (λ id. not (list_beq id vault_id)) (trim name) c.vaults
      then (c, err name_exists)
      else elim (Assoc.lookup vault_id c.vaults) [
        | none ↦ (c, err not_found)
        | some state ↦ rename_state c io vault_id (trim name) now state
      ]

  -- The vault with an open database: `opened` is what opening it gives, `none` on an error.
  pub opened_state : ManagedVaultState S → Option S → Result (VaultError F) (ManagedVaultState S)
  opened_state state opened = elim state.store [
    | some store ↦ ok state
    | none ↦ elim opened [
      | none ↦ err open_failed
      | some store ↦ ok (record state { store = some store; availability_error = none })
    ]
  ]

  pub add_open_id : Text → VaultRegistryConfig → VaultRegistryConfig
  add_open_id vault_id vaults = record vaults {
    open_vault_ids = vaults.open_vault_ids ++ vault_id ∷ [];
  }

  pub note_open : Controller → Writes → Text → Answer
  unfolding add_open_id update_config
  note_open c io vault_id =
      if contains c.config.config.vaults.open_vault_ids vault_id
      then (c, ok tt)
      else update_config r toml api c io (with_vaults (add_open_id vault_id))

  pub open_state : Controller → Writes → Text → Result (VaultError F) (ManagedVaultState S) → Answer
  unfolding note_open set_state
  open_state c io vault_id (err e) = (c, err e)
  open_state c io vault_id (ok state) =
      note_open (set_state r toml api c vault_id state) io vault_id

  pub open_vault : Controller → Writes → Text → Option S → Answer
  unfolding open_state opened_state
  open_vault c io vault_id opened = elim (Assoc.lookup vault_id c.vaults) [
    | none ↦ (c, err not_found)
    | some state ↦ open_state c io vault_id (opened_state state opened)
  ]

  pub forget_open_id : Text → VaultRegistryConfig → VaultRegistryConfig
  forget_open_id vault_id vaults = record vaults {
    open_vault_ids = without_id vault_id vaults.open_vault_ids;
  }

  pub close_state : Controller → Writes → Text → ManagedVaultState S → Answer
  unfolding forget_open_id update_config remove_index set_state
  close_state c io vault_id state =
      let closed = set_state r toml api c vault_id (record state { store = none }) in
      update_config r toml api (remove_index r toml api closed vault_id) io
        (with_vaults (forget_open_id vault_id))

  pub close_vault : Controller → Writes → Text → Answer
  unfolding close_state
  close_vault c io vault_id = elim (Assoc.lookup vault_id c.vaults) [
    | none ↦ (c, err not_found)
    | some state ↦ close_state c io vault_id state
  ]

  pub lock_state : Controller → Text → ManagedVaultState S → Answer
  unfolding remove_index set_state
  lock_state c vault_id state = elim state.store [
    | none ↦ (c, err not_open)
    | some store ↦ (
      remove_index r toml api
          (set_state r toml api c vault_id (record state { store = some (api.lock store) }))
          vault_id,
      ok tt,
    )
  ]

  pub lock_vault : Controller → Text → Answer
  unfolding lock_state
  lock_vault c vault_id = elim (Assoc.lookup vault_id c.vaults) [
    | none ↦ (c, err not_open)
    | some state ↦ lock_state c vault_id state
  ]

  pub is_unlocked : Option S → Bool
  is_unlocked none = false
  is_unlocked (some store) = api.unlocked store

  -- `removable` is whether the file could be removed, or was not there.
  pub delete_state : Controller → Writes → Text → ManagedVaultState S → Bool → Answer
  unfolding is_unlocked delete_entry update_config remove_index and_then
  delete_state c io vault_id state removable =
      let without = record c { vaults = Assoc.remove vault_id c.vaults } in
      if is_unlocked state.store
      then (c, err still_unlocked)
      else and_then r toml api
          (update_config r toml api (remove_index r toml api without vault_id) io
            (with_vaults (delete_entry vault_id)))
          (λ d. if removable then (d, ok tt) else (d, err remove_file_failed))

  pub delete_vault_permanently : Controller → Writes → Text → Bool → Answer
  unfolding delete_state
  delete_vault_permanently c io vault_id removable = elim (Assoc.lookup vault_id c.vaults) [
    | none ↦ (c, err not_found)
    | some state ↦ delete_state c io vault_id state removable
  ]

  pub set_default_id : Text → VaultRegistryConfig → VaultRegistryConfig
  set_default_id vault_id vaults = record vaults { default_target_vault_id = some vault_id }

  pub set_default_target_vault : Controller → Writes → Text → Answer
  unfolding set_default_id update_config
  set_default_target_vault c io vault_id =
      if is_some (Assoc.lookup vault_id c.vaults)
      then update_config r toml api c io (with_vaults (set_default_id vault_id))
      else (c, err not_found)
