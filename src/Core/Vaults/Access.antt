-- ===== src/Core/Vaults/Access.antt =====
-- The calls of AppController in crates/seance-core/src/lib.rs that reach into a vault's database and may
-- change the index of hosts: unlocking, saving and deleting hosts, and the rebuild of the whole index.
-- What the database makes of its own call is an argument.
use seance.Prelude.{
  Bool, true, false, Option, none, some, List, [], ◌∷◌, map, if◌then◌else◌, Text, Result, ok, err,
  nat_eq, list_eq,
}
use seance.Prelude.Assoc
use seance.Config.Model.{Runtime}
use seance.Config.Store.{Toml, Writes}
use seance.Core.AuthIndex.{
  HostAuthSummary, AuthReferenceIndex, remove_host_auth_reference_by_scope,
  upsert_host_auth_reference_summary,
}
use seance.Core.AuthIndex.Calls.{empty_index}
use seance.Core.VaultState.{
  VaultStoreApi, StoreCall, ManagedVaultState, VaultError, VaultController, and_then, and_use,
  set_state, rebuild_index, not_found, not_open, unlock_failed, store_failed,
}
use seance.Core.Vaults.{open_vault}

module _ {F S : Type 0} (r : Runtime F) (toml : Toml F) (api : VaultStoreApi S) where
  abbrev Controller : Type 0
  Controller = VaultController F S

  abbrev Outcome : Type 0 → Type 0
  Outcome A = Controller × Result (VaultError F) A

  -- The vault keeps what its call has changed, on an error too; `failed` is the error shown.
  unfoldable pub call_settled :
      {A : Type 0}
      → (Text → VaultError F)
      → Controller
      → Text
      → ManagedVaultState S
      → Result Text A × S
      → Outcome A
  unfolding set_state
  call_settled failed c vault_id state (ok a, store) =
      (set_state r toml api c vault_id (record state { store = some store }), ok a)
  call_settled failed c vault_id state (err e, store) =
      (set_state r toml api c vault_id (record state { store = some store }), err (failed e))

  -- `store_mut`, and the call on what it finds.
  unfoldable pub on_state :
      {A : Type 0}
      → (Text → VaultError F)
      → Controller
      → Text
      → StoreCall S A
      → ManagedVaultState S
      → Outcome A
  unfolding call_settled
  on_state failed c vault_id call state = elim state.store [
    | none ↦ (c, err not_open)
    | some store ↦ call_settled failed c vault_id state (call store)
  ]

  unfoldable pub on_store :
      {A : Type 0} → (Text → VaultError F) → Controller → Text → StoreCall S A → Outcome A
  unfolding on_state
  on_store failed c vault_id call = elim (Assoc.lookup vault_id c.vaults) [
    | none ↦ (c, err not_open)
    | some state ↦ on_state failed c vault_id call state
  ]

  -- `device_unlock_attempted = true`
  unfoldable pub attempted : Controller → Controller
  attempted c = record c { device_unlock_attempted = true }

  -- `opened` is what opening the database gives, where it is not open yet.
  unfoldable pub unlock_vault :
      Controller → Writes → Text → Option S → StoreCall S (Unit {0}) → Outcome (Unit {0})
  unfolding on_store attempted rebuild_index and_use open_vault
  unlock_vault c io vault_id opened unlock_with_passphrase =
      and_use r toml api (open_vault r toml api c io vault_id opened) (λ d opening.
        and_use r toml api (on_store (λ e. unlock_failed) d vault_id unlock_with_passphrase)
          (λ e unlocking. rebuild_index r toml api (attempted e) vault_id))

  unfoldable pub unlocked_with_device : Controller → Text → Bool → Outcome Bool
  unfolding rebuild_index and_use
  unlocked_with_device c vault_id unlocked =
      if unlocked
      then and_use r toml api (rebuild_index r toml api c vault_id) (λ d done. (d, ok true))
      else (c, ok false)

  unfoldable pub try_unlock_vault_with_device :
      Controller → Writes → Text → Option S → StoreCall S Bool → Outcome Bool
  unfolding on_store attempted unlocked_with_device and_use open_vault
  try_unlock_vault_with_device c io vault_id opened try_unlock_with_device =
      and_use r toml api (open_vault r toml api c io vault_id opened) (λ d opening.
        and_use r toml api (on_store store_failed (attempted d) vault_id try_unlock_with_device)
          (λ e unlocked. unlocked_with_device e vault_id unlocked))

  unfoldable pub set_index : Controller → AuthReferenceIndex → Controller
  set_index c index = record c { auth_reference_index = index }

  -- The saved host read back, `load_host_profile` with `auth_summary`, put into the index.
  unfoldable pub index_saved :
      Controller → Text → Text → Result Text (Option HostAuthSummary) → Outcome (Unit {0})
  unfolding set_index
  index_saved c vault_id vault_name (err e) = (c, err (store_failed e))
  index_saved c vault_id vault_name (ok none) = (c, ok tt)
  index_saved c vault_id vault_name (ok (some host)) = (
    set_index c (
        upsert_host_auth_reference_summary r.to_lowercase c.auth_reference_index vault_id vault_name
          host),
    ok tt,
  )

  unfoldable pub index_host : Controller → Text → Text → ManagedVaultState S → Outcome (Unit {0})
  unfolding index_saved
  index_host c vault_id host_id state = elim state.store [
    | none ↦ (c, err not_open)
    | some store ↦
        index_saved c vault_id state.entry.name (api.load_host_auth_summary store host_id)
  ]

  -- The answer of `store_host_profile` is the host's id.
  unfoldable pub save_host : Controller → Text → StoreCall S Text → Outcome (Unit {0})
  unfolding on_store index_host and_use
  save_host c vault_id store_host_profile =
      and_use r toml api (on_store store_failed c vault_id store_host_profile) (λ d host_id.
        elim (Assoc.lookup vault_id d.vaults) [
          | none ↦ (d, err not_found)
          | some state ↦ index_host d vault_id host_id state
        ])

  unfoldable pub delete_host : Controller → Text → Text → StoreCall S Bool → Outcome Bool
  unfolding on_store set_index and_use
  delete_host c vault_id host_id delete_host_profile =
      and_use r toml api (on_store store_failed c vault_id delete_host_profile) (λ d deleted.
        if deleted
        then (
          set_index d
              (remove_host_auth_reference_by_scope d.auth_reference_index (vault_id, host_id)),
          ok true,
        )
        else (d, ok false))

  -- The loop over the vaults, which an error ends.
  unfoldable pub rebuild_each : Controller → List Text → Outcome (Unit {0})
  unfolding rebuild_index and_then
  rebuild_each c [] = (c, ok tt)
  rebuild_each c (vault_id ∷ rest) =
      and_then r toml api (rebuild_index r toml api c vault_id) (λ d. rebuild_each d rest)

  unfoldable pub rebuild_all_auth_reference_indexes : Controller → Outcome (Unit {0})
  unfolding set_index rebuild_each
  rebuild_all_auth_reference_indexes c =
      rebuild_each (set_index c empty_index)
        (map (λ (p : Text × ManagedVaultState S). p.0) c.vaults)
