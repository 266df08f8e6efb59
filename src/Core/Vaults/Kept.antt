-- ===== src/Core/Vaults/Kept.antt =====
-- The invariant of the vaults of crates/seance-core/src/lib.rs, and the steps that its calls share.
use seance.Prelude.{
  Bool, true, false, Option, none, some, [], if◌then◌else◌, Text, Result, ok, err, nat_eq, list_eq,
  ◌≡◌, refl,
}
use seance.Prelude.Assoc
use seance.Config.Model.{Runtime, AppConfig}
use seance.Config.Validation.{ConfigError}
use seance.Config.Store.{Toml, Writes, ConfigStore}
use seance.Config.Store.Replace.{IsStored, update-IsStored}
use seance.Core.AuthIndex.{AuthReferenceIndex}
use seance.Core.AuthIndex.Indexed.{IsIndexed}
use seance.Core.AuthIndex.Calls.{remove_vault-IsIndexed, rebuild-IsIndexed}
use seance.Core.VaultState.{
  VaultStoreApi, ManagedVaultState, VaultError, VaultController, config_updated, update_config,
  and_then, and_use, set_state, remove_index, rebuilt, rebuild_index,
}
use seance.Core.Vaults.Current.{
  Current, CurrentBut, open_unlocked, insert-Current, insert-CurrentBut, remove_vault-Current,
  rebuild-Current, rebuild_none-Current,
}

module _ {F S : Type 0} (r : Runtime F) (toml : Toml F) (api : VaultStoreApi S) where
  -- The store holds a valid configuration, the index agrees with its hosts, and each of these is one
  -- of a vault that is open and unlocked.
  pub record IsKept (c : VaultController F S) : Type 0 where
    pub stored : IsStored r toml c.config
    pub indexed : IsIndexed c.auth_reference_index
    pub current : Current api c.vaults c.auth_reference_index

  -- The same while one vault changes.
  pub record IsKeptBut (vault_id : Text) (c : VaultController F S) : Type 0 where
    pub stored : IsStored r toml c.config
    pub indexed : IsIndexed c.auth_reference_index
    pub current : CurrentBut api vault_id c.vaults c.auth_reference_index

  -- The same of a call's answer.
  pub record Kept {A : Type 0} (answer : VaultController F S × Result (VaultError F) A)
      : Type 0 where
    pub kept : IsKept answer.0

  pub answered :
      {A : Type 0} (c : VaultController F S) (result : Result (VaultError F) A)
      → IsKept c
      → Kept (c, result)
  answered c result k = record { kept = k }

  config_updated-Kept :
      (c : VaultController F S) (answer : ConfigStore F × Result (ConfigError F) (AppConfig F))
      → IsStored r toml answer.0
      → IsKept c
      → Kept (config_updated r toml api c answer)
  unfolding config_updated
  config_updated-Kept c (store, ok snapshot) v k = record {
    kept = record { stored = v; indexed = k.indexed; current = k.current };
  }
  config_updated-Kept c (store, err e) v k = record {
    kept = record { stored = v; indexed = k.indexed; current = k.current };
  }

  pub update_config-Kept :
      (c : VaultController F S) (io : Writes) (f : AppConfig F → AppConfig F)
      → IsKept c
      → Kept (update_config r toml api c io f)
  unfolding update_config
  update_config-Kept c io f k =
      config_updated-Kept c _ (update-IsStored r toml c.config io f k.stored) k

  -- A vault in another state, which is unlocked if it was so before.
  pub set_state-IsKept :
      (c : VaultController F S) (vault_id : Text) (old state : ManagedVaultState S)
      → Assoc.lookup vault_id c.vaults ≡ some old
      → (open_unlocked api old.store ≡ true → open_unlocked api state.store ≡ true)
      → IsKept c
      → IsKept (set_state r toml api c vault_id state)
  unfolding set_state
  set_state-IsKept c vault_id old state found stays k = record {
    stored = k.stored;
    indexed = k.indexed;
    current =
        insert-Current api c.vaults c.auth_reference_index vault_id old state found stays k.current;
  }

  pub set_state-IsKeptBut :
      (c : VaultController F S) (vault_id : Text) (state : ManagedVaultState S)
      → IsKept c
      → IsKeptBut vault_id (set_state r toml api c vault_id state)
  unfolding set_state
  set_state-IsKeptBut c vault_id state k = record {
    stored = k.stored;
    indexed = k.indexed;
    current = insert-CurrentBut api c.vaults c.auth_reference_index vault_id state k.current;
  }

  pub IsKept-but : (c : VaultController F S) (vault_id : Text) → IsKept c → IsKeptBut vault_id c
  IsKept-but c vault_id k = record {
    stored = k.stored;
    indexed = k.indexed;
    current = λ vault host_id other present. k.current vault host_id present;
  }

  pub remove_index-IsKept :
      (c : VaultController F S) (vault_id : Text)
      → IsKeptBut vault_id c
      → IsKept (remove_index r toml api c vault_id)
  unfolding remove_index
  remove_index-IsKept c vault_id k = record {
    stored = k.stored;
    indexed = remove_vault-IsIndexed c.auth_reference_index vault_id k.indexed;
    current = remove_vault-Current api c.vaults c.auth_reference_index vault_id k.current;
  }

  rebuilt-Kept :
      (c : VaultController F S) (answer : AuthReferenceIndex × Result Text (Unit {0}))
      → IsStored r toml c.config
      → IsIndexed answer.0
      → Current api c.vaults answer.0
      → Kept (rebuilt r toml api c answer)
  unfolding rebuilt
  rebuilt-Kept c (index, ok done) s i k = record {
    kept = record { stored = s; indexed = i; current = k };
  }
  rebuilt-Kept c (index, err e) s i k = record {
    kept = record { stored = s; indexed = i; current = k };
  }

  pub option-Kept :
      {A B : Type 0} (o : Option A) (n : VaultController F S × Result (VaultError F) B)
      (f : A → VaultController F S × Result (VaultError F) B)
      → Kept n
      → ((a : A) → o ≡ some a → Kept (f a))
      → Kept {A = B} (elim o [ none ↦ n | some a ↦ f a ])
  option-Kept none n f h k = h
  option-Kept (some a) n f h k = k a refl

  pub rebuild_index-Kept :
      (c : VaultController F S) (vault_id : Text)
      → IsKeptBut vault_id c
      → Kept (rebuild_index r toml api c vault_id)
  unfolding rebuild_index
  rebuild_index-Kept c vault_id k =
      option-Kept (Assoc.lookup vault_id c.vaults) _ _
        (rebuilt-Kept c _ k.stored (rebuild-IsIndexed r.to_lowercase _ vault_id [] none k.indexed)
          (rebuild_none-Current api r.to_lowercase c.vaults _ vault_id k.current))
        (λ state found.
          rebuilt-Kept c _ k.stored
            (rebuild-IsIndexed r.to_lowercase _ vault_id state.entry.name _ k.indexed)
            (rebuild-Current api r toml c.vaults _ vault_id state found k.current))

  pub and_then-Kept :
      (answer : VaultController F S × Result (VaultError F) (Unit {0}))
      (next : VaultController F S → VaultController F S × Result (VaultError F) (Unit {0}))
      → Kept answer
      → ((d : VaultController F S) → IsKept d → Kept (next d))
      → Kept (and_then r toml api answer next)
  unfolding and_then
  and_then-Kept (c, ok done) next k n = n c k.kept
  and_then-Kept (c, err e) next k n = answered c _ k.kept

  pub and_use-Kept :
      {A B : Type 0} (answer : VaultController F S × Result (VaultError F) A)
      (next : VaultController F S → A → VaultController F S × Result (VaultError F) B)
      → Kept answer
      → ((d : VaultController F S) (a : A) → IsKept d → Kept (next d a))
      → Kept (and_use r toml api answer next)
  unfolding and_use
  and_use-Kept (c, ok a) next k n = n c a k.kept
  and_use-Kept (c, err e) next k n = answered c _ k.kept

  pub if-Kept :
      {A : Type 0} (b : Bool) (x y : VaultController F S × Result (VaultError F) A)
      → Kept x
      → Kept y
      → Kept (if b then x else y)
  if-Kept true x y h k = h
  if-Kept false x y h k = k
