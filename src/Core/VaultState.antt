-- ===== src/Core/VaultState.antt =====
-- The state of the vaults, ManagedVaultState and AppController of crates/seance-core/src/lib.rs, and
-- the steps that its calls share: a change of the configuration and of the index. A vault's
-- database is an interface.
use seance.Prelude.{
  Bool, not, ◌&&◌, Option, none, some, List, [], ◌∷◌, ◌++◌, if◌then◌else◌, is_some, Text, Result,
  ok, err, list_beq, nat_eq, list_eq,
}
use seance.Prelude.Assoc
use seance.Prelude.SortBy.{any, retain}
use seance.Config.Keybindings.{eq_ignore_ascii_case}
use seance.Config.Model.{Runtime, VaultRegistryEntry, VaultRegistryConfig, AppConfig}
use seance.Config.Validation.{ConfigError}
use seance.Config.Store.{Toml, Writes, ConfigStore, update}
use seance.Core.Sessions.{LifecyclePolicy}
use seance.Core.AuthIndex.{
  HostAuthSummary, AuthReferenceIndex, remove_vault_auth_reference_index,
  rebuild_vault_auth_reference_index,
}

-- What the controller asks of an open vault.
pub record VaultStoreApi (S : Type 0) : Type 0 where
  pub unlocked : S → Bool
  pub list_host_auth_summaries : S → Result Text (List HostAuthSummary)
  pub load_host_auth_summary : S → Text → Result Text (Option HostAuthSummary)
  pub lock : S → S

-- A call of an open vault that may change it: its answer and the vault afterwards.
abbrev pub StoreCall : Type 0 → Type 0 → Type 0
StoreCall S A = S → Result Text A × S

pub record ManagedVaultState (S : Type 0) : Type 0 where
  pub entry : VaultRegistryEntry
  pub store : Option S
  pub availability_error : Option Text

pub data VaultError (F : Type 0) : Type 0 where
  empty_name name_exists not_found not_open create_failed open_failed : VaultError F
  unlock_failed still_unlocked index_failed remove_file_failed : VaultError F
  config_failed : ConfigError F → VaultError F
  store_failed : Text → VaultError F

pub record VaultController (F S : Type 0) : Type 0 where
  pub vaults : List (Text × ManagedVaultState S)
  pub config : ConfigStore F
  pub auth_reference_index : AuthReferenceIndex
  pub lifecycle_policy : LifecyclePolicy
  pub device_unlock_attempted : Bool

-- From<&AppConfig> for LifecyclePolicy
pub lifecycle_policy_from : {F : Type 0} → AppConfig F → LifecyclePolicy
lifecycle_policy_from config = record {
  keep_running_without_windows = config.window.keep_running_without_windows;
  hide_on_last_window_close = config.window.hide_on_last_window_close;
  keep_sessions_alive_without_windows = config.window.keep_sessions_alive_without_windows;
}

-- The changes of the configuration, as closures of the calls below.
abbrev pub with_vaults :
    {F : Type 0} → (VaultRegistryConfig → VaultRegistryConfig) → AppConfig F → AppConfig F
with_vaults f config = record config { vaults = f config.vaults }

unfoldable pub add_vault : VaultRegistryEntry → VaultRegistryConfig → VaultRegistryConfig
add_vault entry vaults = record {
  entries = vaults.entries ++ entry ∷ [];
  open_vault_ids = vaults.open_vault_ids ++ entry.id ∷ [];
  default_target_vault_id =
      if is_some vaults.default_target_vault_id
      then vaults.default_target_vault_id
      else some entry.id;
}

-- The first entry with the id is overwritten.
pub overwrite_entry : Text → VaultRegistryEntry → List VaultRegistryEntry → List VaultRegistryEntry
overwrite_entry vault_id updated [] = []
overwrite_entry vault_id updated (entry ∷ rest) =
    if list_beq entry.id vault_id
    then updated ∷ rest
    else entry ∷ overwrite_entry vault_id updated rest

abbrev pub without_id : Text → List Text → List Text
without_id vault_id ids = retain (λ (id : Text). not (list_beq id vault_id)) ids

pub unless_id : Text → Option Text → Option Text
unless_id vault_id none = none
unless_id vault_id (some id) = if list_beq id vault_id then none else some id

unfoldable pub delete_entry : Text → VaultRegistryConfig → VaultRegistryConfig
unfolding unless_id
delete_entry vault_id vaults = record {
  entries =
      retain (λ (entry : VaultRegistryEntry). not (list_beq entry.id vault_id)) vaults.entries;
  open_vault_ids = without_id vault_id vaults.open_vault_ids;
  default_target_vault_id = unless_id vault_id vaults.default_target_vault_id;
}

-- Whether another vault has the name, the case of ASCII letters not counting.
unfoldable pub name_taken :
    {S : Type 0} → (Text → Bool) → Text → List (Text × ManagedVaultState S) → Bool
name_taken concerns name vaults =
    any (λ p. concerns p.0 && eq_ignore_ascii_case p.1.entry.name name) vaults

module _ {F S : Type 0} (r : Runtime F) (toml : Toml F) (api : VaultStoreApi S) where
  abbrev Controller : Type 0
  Controller = VaultController F S

  abbrev Answer : Type 0
  Answer = Controller × Result (VaultError F) (Unit {0})

  -- What follows on the store's answer; subscribers and the updater are told too.
  unfoldable pub config_updated :
      Controller → ConfigStore F × Result (ConfigError F) (AppConfig F) → Answer
  config_updated c (config, ok snapshot) =
      (record c { config = config; lifecycle_policy = lifecycle_policy_from snapshot }, ok tt)
  config_updated c (config, err e) = (record c { config = config }, err (config_failed e))

  unfoldable pub update_config : Controller → Writes → (AppConfig F → AppConfig F) → Answer
  unfolding config_updated
  update_config c io f = config_updated c (update r toml c.config io f)

  -- The next step of a call, after one that may fail.
  unfoldable pub and_then : Answer → (Controller → Answer) → Answer
  and_then (c, ok done) next = next c
  and_then (c, err e) next = (c, err e)

  -- The same where the step hands a value on.
  unfoldable pub and_use :
      {A B : Type 0}
      → Controller × Result (VaultError F) A
      → (Controller → A → Controller × Result (VaultError F) B)
      → Controller × Result (VaultError F) B
  and_use (c, ok a) next = next c a
  and_use (c, err e) next = (c, err e)

  unfoldable pub set_state : Controller → Text → ManagedVaultState S → Controller
  set_state c vault_id state = record c { vaults = Assoc.insert vault_id state c.vaults }

  unfoldable pub remove_index : Controller → Text → Controller
  remove_index c vault_id = record c {
    auth_reference_index = remove_vault_auth_reference_index c.auth_reference_index vault_id;
  }

  -- What an open and unlocked vault answers.
  unfoldable pub open_hosts : Option S → Option (Result Text (List HostAuthSummary))
  open_hosts none = none
  open_hosts (some store) =
      if api.unlocked store then some (api.list_host_auth_summaries store) else none

  unfoldable pub rebuilt : Controller → AuthReferenceIndex × Result Text (Unit {0}) → Answer
  rebuilt c (index, ok done) = (record c { auth_reference_index = index }, ok tt)
  rebuilt c (index, err e) = (record c { auth_reference_index = index }, err index_failed)

  unfoldable pub rebuild_index : Controller → Text → Answer
  unfolding open_hosts rebuilt
  rebuild_index c vault_id = elim (Assoc.lookup vault_id c.vaults) [
    | none ↦
        rebuilt c (
          rebuild_vault_auth_reference_index r.to_lowercase c.auth_reference_index vault_id [] none)
    | some state ↦ rebuilt c (
        rebuild_vault_auth_reference_index r.to_lowercase c.auth_reference_index vault_id
          state.entry.name (open_hosts state.store))
  ]
