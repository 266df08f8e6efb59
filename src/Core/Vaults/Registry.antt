-- ===== src/Core/Vaults/Registry.antt =====
-- The calls on the registry of vaults of crates/seance-core/src/lib.rs, one by one.
use seance.Prelude.{
  Bool, true, Option, none, some, is_empty, Text, trim, Result, ok, err, nat_eq, list_eq, ◌≡◌,
  arith,
}
use seance.Prelude.Assoc
use seance.Config.Model.{ℤ, Runtime, VaultRegistryEntry}
use seance.Config.Store.{Toml, Writes}
use seance.Core.VaultState.{VaultStoreApi, ManagedVaultState, VaultError, VaultController}
use seance.Core.Vaults.{
  create_named_vault, rename_state, rename_vault, opened_state, note_open, open_state, open_vault,
  close_state, close_vault, lock_state, lock_vault, is_unlocked, delete_state,
  delete_vault_permanently, set_default_target_vault,
}
use seance.Core.Vaults.Current.{open_unlocked, remove-CurrentBut}
use seance.Core.Vaults.Kept.{
  IsKept, IsKeptBut, Kept, answered, update_config-Kept, set_state-IsKept, set_state-IsKeptBut,
  remove_index-IsKept, option-Kept, rebuild_index-Kept, and_then-Kept, if-Kept,
}

module _ {F S : Type 0} (r : Runtime F) (toml : Toml F) (api : VaultStoreApi S) where
  -- A vault that is opened, and stays unlocked if it was so.
  abbrev Opens : ManagedVaultState S → Result (VaultError F) (ManagedVaultState S) → Type 0
  Opens old (err e) = Unit
  Opens old (ok state) = open_unlocked api old.store ≡ true → open_unlocked api state.store ≡ true

  opened_state-Opens :
      (entry : VaultRegistryEntry) (store : Option S) (reason : Option Text) (opened : Option S)
      → let state : ManagedVaultState S = record {
        entry = entry;
        store = store;
        availability_error = reason;
      } in
        Opens state (opened_state r toml api state opened)
  unfolding opened_state
  opened_state-Opens entry none reason none = tt
  opened_state-Opens entry none reason (some store) = λ unlocked. ground arith
  opened_state-Opens entry (some old) reason opened = λ unlocked. unlocked

  without-IsKeptBut :
      (c : VaultController F S) (vault_id : Text)
      → IsKept r toml api c
      → IsKeptBut r toml api vault_id (record c { vaults = Assoc.remove vault_id c.vaults })
  without-IsKeptBut c vault_id k = record {
    stored = k.stored;
    indexed = k.indexed;
    current = remove-CurrentBut api c.vaults c.auth_reference_index vault_id k.current;
  }

  pub create-Kept :
      (c : VaultController F S) (io : Writes) (name vault_id : Text) (now : ℤ) (created : Option S)
      → IsKept r toml api c
      → Kept r toml api (create_named_vault r toml api c io name vault_id now created)
  unfolding create_named_vault
  create-Kept c io name vault_id now none k =
      if-Kept r toml api (is_empty (trim name)) _ _ (answered r toml api c _ k)
        (if-Kept r toml api _ _ _ (answered r toml api c _ k) (answered r toml api c _ k))
  create-Kept c io name vault_id now (some store) k =
      if-Kept r toml api (is_empty (trim name)) _ _ (answered r toml api c _ k) (
        if-Kept r toml api _ _ _ (answered r toml api c _ k) (
          and_then-Kept r toml api _ _ (update_config-Kept r toml api c io _ k) (λ d h.
            rebuild_index-Kept r toml api _ vault_id
              (set_state-IsKeptBut r toml api d vault_id _ h))))

  pub rename-Kept :
      (c : VaultController F S) (io : Writes) (vault_id name : Text) (now : ℤ)
      → IsKept r toml api c
      → Kept r toml api (rename_vault r toml api c io vault_id name now)
  unfolding rename_vault rename_state
  rename-Kept c io vault_id name now k =
      if-Kept r toml api (is_empty (trim name)) _ _ (answered r toml api c _ k) (
        if-Kept r toml api _ _ _ (answered r toml api c _ k) (
          option-Kept r toml api (Assoc.lookup vault_id c.vaults) _ _ (answered r toml api c _ k)
            (λ state found.
              update_config-Kept r toml api _ io _
                (set_state-IsKept r toml api c vault_id state _ found (λ unlocked. unlocked) k))))

  note_open-Kept :
      (c : VaultController F S) (io : Writes) (vault_id : Text)
      → IsKept r toml api c
      → Kept r toml api (note_open r toml api c io vault_id)
  unfolding note_open
  note_open-Kept c io vault_id k =
      if-Kept r toml api _ _ _ (answered r toml api c _ k) (update_config-Kept r toml api c io _ k)

  open_state-Kept :
      (c : VaultController F S) (io : Writes) (vault_id : Text) (old : ManagedVaultState S)
      (state : Result (VaultError F) (ManagedVaultState S))
      → Assoc.lookup vault_id c.vaults ≡ some old
      → Opens old state
      → IsKept r toml api c
      → Kept r toml api (open_state r toml api c io vault_id state)
  unfolding open_state
  open_state-Kept c io vault_id old (err e) found opens k = answered r toml api c _ k
  open_state-Kept c io vault_id old (ok state) found opens k =
      note_open-Kept _ io vault_id (set_state-IsKept r toml api c vault_id old state found opens k)

  pub open-Kept :
      (c : VaultController F S) (io : Writes) (vault_id : Text) (opened : Option S)
      → IsKept r toml api c
      → Kept r toml api (open_vault r toml api c io vault_id opened)
  unfolding open_vault
  open-Kept c io vault_id opened k =
      option-Kept r toml api (Assoc.lookup vault_id c.vaults) _ _ (answered r toml api c _ k)
        (λ state found.
          open_state-Kept c io vault_id state (opened_state r toml api state opened) found
            (opened_state-Opens state.entry state.store state.availability_error opened) k)

  pub close-Kept :
      (c : VaultController F S) (io : Writes) (vault_id : Text)
      → IsKept r toml api c
      → Kept r toml api (close_vault r toml api c io vault_id)
  unfolding close_vault close_state
  close-Kept c io vault_id k =
      option-Kept r toml api (Assoc.lookup vault_id c.vaults) _ _ (answered r toml api c _ k)
        (λ state found. update_config-Kept r toml api _ io _ (
          remove_index-IsKept r toml api _ vault_id
            (set_state-IsKeptBut r toml api c vault_id _ k)))

  pub lock-Kept :
      (c : VaultController F S) (vault_id : Text)
      → IsKept r toml api c
      → Kept r toml api (lock_vault r toml api c vault_id)
  unfolding lock_vault lock_state
  lock-Kept c vault_id k =
      option-Kept r toml api (Assoc.lookup vault_id c.vaults) _ _ (answered r toml api c _ k)
        (λ state found.
          option-Kept r toml api state.store _ _ (answered r toml api c _ k) (λ store is_open.
            answered r toml api _ _ (
              remove_index-IsKept r toml api _ vault_id
                (set_state-IsKeptBut r toml api c vault_id _ k))))

  pub delete-Kept :
      (c : VaultController F S) (io : Writes) (vault_id : Text) (removable : Bool)
      → IsKept r toml api c
      → Kept r toml api (delete_vault_permanently r toml api c io vault_id removable)
  unfolding delete_vault_permanently delete_state
  delete-Kept c io vault_id removable k =
      option-Kept r toml api (Assoc.lookup vault_id c.vaults) _ _ (answered r toml api c _ k)
        (λ state found.
          if-Kept r toml api (is_unlocked r toml api state.store) _ _ (answered r toml api c _ k) (
            and_then-Kept r toml api _ _
              (update_config-Kept r toml api _ io _
                (remove_index-IsKept r toml api _ vault_id (without-IsKeptBut c vault_id k)))
              (λ d h.
                if-Kept r toml api removable _ _ (answered r toml api d _ h)
                  (answered r toml api d _ h))))

  pub set_default-Kept :
      (c : VaultController F S) (io : Writes) (vault_id : Text)
      → IsKept r toml api c
      → Kept r toml api (set_default_target_vault r toml api c io vault_id)
  unfolding set_default_target_vault
  set_default-Kept c io vault_id k =
      if-Kept r toml api _ _ _ (update_config-Kept r toml api c io _ k) (answered r toml api c _ k)
