-- ===== src/Core/Vaults/Unlocking.antt =====
-- The calls of crates/seance-core/src/lib.rs that reach into a vault's database, one by one.
use seance.Prelude.{
  Bool, true, Option, none, some, List, [], ◌∷◌, Text, Result, ok, err, nat_eq, list_eq, ◌≡◌, refl,
  ap, ◌∙◌, sym,
}
use seance.Prelude.Assoc
use seance.Config.Model.{Runtime}
use seance.Config.Store.{Toml, Writes}
use seance.Core.AuthIndex.{HostAuthSummary, AuthReferenceIndex}
use seance.Core.AuthIndex.Indexed.{IsIndexed, removed-IsIndexed}
use seance.Core.AuthIndex.Calls.{empty_index, empty-IsIndexed, upsert-IsIndexed}
use seance.Core.VaultState.{
  VaultStoreApi, StoreCall, ManagedVaultState, VaultError, VaultController,
}
use seance.Core.Vaults.Access.{
  call_settled, on_state, on_store, attempted, unlock_vault, unlocked_with_device,
  try_unlock_vault_with_device, set_index, index_saved, index_host, save_host, delete_host,
  rebuild_each, rebuild_all_auth_reference_indexes,
}
use seance.Core.Vaults.Current.{
  Current, open_unlocked, vault_unlocked, removed-Current, upsert-Current, empty-Current,
}
use seance.Core.Vaults.Kept.{
  IsKept, Kept, answered, set_state-IsKept, IsKept-but, option-Kept, rebuild_index-Kept,
  and_then-Kept, and_use-Kept, if-Kept,
}
use seance.Core.Vaults.Registry.{open-Kept}

-- A call that leaves an unlocked vault unlocked: nothing but `lock` drops the master key.
abbrev pub NeverLocks : {S A : Type 0} → VaultStoreApi S → StoreCall S A → Type 0
NeverLocks {S} api call = (s : S) → api.unlocked s ≡ true → api.unlocked (call s).1 ≡ true

-- A locked vault shows no host.
abbrev pub IsGuarded : {S : Type 0} → VaultStoreApi S → Type 0
IsGuarded {S} api =
    (s : S) (id : Text) (host : HostAuthSummary)
    → api.load_host_auth_summary s id ≡ ok (some host)
    → api.unlocked s ≡ true

module _ {F S : Type 0} (r : Runtime F) (toml : Toml F) (api : VaultStoreApi S) where
  call_settled-Kept :
      {A : Type 0} (failed : Text → VaultError F) (c : VaultController F S) (vault_id : Text)
      (state : ManagedVaultState S) (answer : Result Text A × S)
      → Assoc.lookup vault_id c.vaults ≡ some state
      → (open_unlocked api state.store ≡ true → api.unlocked answer.1 ≡ true)
      → IsKept r toml api c
      → Kept r toml api (call_settled r toml api failed c vault_id state answer)
  unfolding call_settled
  call_settled-Kept failed c vault_id state (ok a, store) found stays k =
      answered r toml api _ _ (set_state-IsKept r toml api c vault_id state _ found stays k)
  call_settled-Kept failed c vault_id state (err e, store) found stays k =
      answered r toml api _ _ (set_state-IsKept r toml api c vault_id state _ found stays k)

  pub on_store-Kept :
      {A : Type 0} (failed : Text → VaultError F) (c : VaultController F S) (vault_id : Text)
      (call : StoreCall S A)
      → NeverLocks api call
      → IsKept r toml api c
      → Kept r toml api (on_store r toml api failed c vault_id call)
  unfolding on_store on_state
  on_store-Kept failed c vault_id call never k =
      option-Kept r toml api (Assoc.lookup vault_id c.vaults) _ _ (answered r toml api c _ k)
        (λ state found.
          option-Kept r toml api state.store _ _ (answered r toml api c _ k) (λ store is_open.
            call_settled-Kept failed c vault_id state (call store) found
              (λ unlocked. never store (ap (open_unlocked api) (sym is_open) ∙ unlocked)) k))

  attempted-IsKept :
      (c : VaultController F S) → IsKept r toml api c → IsKept r toml api (attempted r toml api c)
  unfolding attempted
  attempted-IsKept c k = record { stored = k.stored; indexed = k.indexed; current = k.current }

  pub unlock-Kept :
      (c : VaultController F S) (io : Writes) (vault_id : Text) (opened : Option S)
      (unlock : StoreCall S (Unit {0}))
      → NeverLocks api unlock
      → IsKept r toml api c
      → Kept r toml api (unlock_vault r toml api c io vault_id opened unlock)
  unfolding unlock_vault
  unlock-Kept c io vault_id opened unlock never k =
      and_use-Kept r toml api _ _ (open-Kept r toml api c io vault_id opened k) (λ d opening h.
        and_use-Kept r toml api _ _ (on_store-Kept _ d vault_id unlock never h) (λ e unlocking m.
          rebuild_index-Kept r toml api _ vault_id
            (IsKept-but r toml api _ vault_id (attempted-IsKept e m))))

  unlocked_with_device-Kept :
      (c : VaultController F S) (vault_id : Text) (unlocked : Bool)
      → IsKept r toml api c
      → Kept r toml api (unlocked_with_device r toml api c vault_id unlocked)
  unfolding unlocked_with_device
  unlocked_with_device-Kept c vault_id unlocked k =
      if-Kept r toml api unlocked _ _
        (and_use-Kept r toml api _ _
          (rebuild_index-Kept r toml api c vault_id (IsKept-but r toml api c vault_id k))
          (λ d done h. answered r toml api d _ h))
        (answered r toml api c _ k)

  pub try_unlock-Kept :
      (c : VaultController F S) (io : Writes) (vault_id : Text) (opened : Option S)
      (try_unlock : StoreCall S Bool)
      → NeverLocks api try_unlock
      → IsKept r toml api c
      → Kept r toml api (try_unlock_vault_with_device r toml api c io vault_id opened try_unlock)
  unfolding try_unlock_vault_with_device
  try_unlock-Kept c io vault_id opened try_unlock never k =
      and_use-Kept r toml api _ _ (open-Kept r toml api c io vault_id opened k) (λ d opening h.
        and_use-Kept r toml api _ _
          (on_store-Kept _ _ vault_id try_unlock never (attempted-IsKept d h))
          (λ e unlocked m. unlocked_with_device-Kept e vault_id unlocked m))

  set_index-Kept :
      {A : Type 0} (c : VaultController F S) (index : AuthReferenceIndex)
      (result : Result (VaultError F) A)
      → IsKept r toml api c
      → IsIndexed index
      → Current api c.vaults index
      → Kept r toml api (set_index r toml api c index, result)
  unfolding set_index
  set_index-Kept c index result k i n =
      answered r toml api _ result (record { stored = k.stored; indexed = i; current = n })

  index_saved-Kept :
      (c : VaultController F S) (vault_id vault_name : Text)
      (saved : Result Text (Option HostAuthSummary))
      → ((host : HostAuthSummary)
          → saved ≡ ok (some host)
          → vault_unlocked api (Assoc.lookup vault_id c.vaults) ≡ true)
      → IsKept r toml api c
      → Kept r toml api (index_saved r toml api c vault_id vault_name saved)
  unfolding index_saved
  index_saved-Kept c vault_id vault_name (err e) unlocked k = answered r toml api c _ k
  index_saved-Kept c vault_id vault_name (ok none) unlocked k = answered r toml api c _ k
  index_saved-Kept c vault_id vault_name (ok (some host)) unlocked k =
      set_index-Kept c _ _ k
        (upsert-IsIndexed r.to_lowercase c.auth_reference_index vault_id vault_name host k.indexed)
        (upsert-Current api r.to_lowercase c.vaults c.auth_reference_index vault_id vault_name host
          (unlocked host refl) k.current)

  index_host-Kept :
      (c : VaultController F S) (vault_id host_id : Text) (state : ManagedVaultState S)
      → IsGuarded api
      → Assoc.lookup vault_id c.vaults ≡ some state
      → IsKept r toml api c
      → Kept r toml api (index_host r toml api c vault_id host_id state)
  unfolding index_host
  index_host-Kept c vault_id host_id state guarded found k =
      option-Kept r toml api state.store _ _ (answered r toml api c _ k) (λ store is_open.
        index_saved-Kept c vault_id state.entry.name (api.load_host_auth_summary store host_id)
          (λ host shown.
            ap (vault_unlocked api) found
            ∙ ap (open_unlocked api) is_open
            ∙ guarded store host_id host shown)
          k)

  pub save_host-Kept :
      (c : VaultController F S) (vault_id : Text) (store_host : StoreCall S Text)
      → IsGuarded api
      → NeverLocks api store_host
      → IsKept r toml api c
      → Kept r toml api (save_host r toml api c vault_id store_host)
  unfolding save_host
  save_host-Kept c vault_id store_host guarded never k =
      and_use-Kept r toml api _ _ (on_store-Kept _ c vault_id store_host never k) (λ d host_id h.
        option-Kept r toml api (Assoc.lookup vault_id d.vaults) _ _ (answered r toml api d _ h)
          (λ state found. index_host-Kept d vault_id host_id state guarded found h))

  pub delete_host-Kept :
      (c : VaultController F S) (vault_id host_id : Text) (delete : StoreCall S Bool)
      → NeverLocks api delete
      → IsKept r toml api c
      → Kept r toml api (delete_host r toml api c vault_id host_id delete)
  unfolding delete_host
  delete_host-Kept c vault_id host_id delete never k =
      and_use-Kept r toml api _ _ (on_store-Kept _ c vault_id delete never k) (λ d deleted h.
        if-Kept r toml api deleted _ _
          (set_index-Kept d _ _ h
            (removed-IsIndexed d.auth_reference_index (vault_id, host_id) h.indexed)
            (removed-Current api d.vaults d.auth_reference_index (vault_id, host_id) h.current))
          (answered r toml api d _ h))

  rebuild_each-Kept :
      (ids : List Text) (c : VaultController F S)
      → IsKept r toml api c
      → Kept r toml api (rebuild_each r toml api c ids)
  unfolding rebuild_each
  rebuild_each-Kept [] c k = answered r toml api c _ k
  rebuild_each-Kept (id ∷ ids) c k =
      and_then-Kept r toml api _ _
        (rebuild_index-Kept r toml api c id (IsKept-but r toml api c id k))
        (λ d h. rebuild_each-Kept ids d h)

  pub rebuild_all-Kept :
      (c : VaultController F S)
      → IsKept r toml api c
      → Kept r toml api (rebuild_all_auth_reference_indexes r toml api c)
  unfolding rebuild_all_auth_reference_indexes
  rebuild_all-Kept c k =
      rebuild_each-Kept _ _
        (set_index-Kept c empty_index (ok tt) k empty-IsIndexed (empty-Current api c.vaults)).kept
