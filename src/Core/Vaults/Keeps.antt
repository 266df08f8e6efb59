-- ===== src/Core/Vaults/Keeps.antt =====
-- Any sequence of calls on the vaults of crates/seance-core/src/lib.rs.
use seance.Prelude.{Bool, Option, List, [], ◌∷◌, Text, All, nat_eq, list_eq}
use seance.Config.Model.{ℤ, Runtime}
use seance.Config.Store.{Toml, Writes}
use seance.Core.VaultState.{VaultStoreApi, StoreCall, VaultController, store_failed}
use seance.Core.Vaults.{
  create_named_vault, rename_vault, open_vault, close_vault, lock_vault, delete_vault_permanently,
  set_default_target_vault,
}
use seance.Core.Vaults.Access.{
  on_store, unlock_vault, try_unlock_vault_with_device, save_host, delete_host,
  rebuild_all_auth_reference_indexes,
}
use seance.Core.Vaults.Kept.{IsKept}
use seance.Core.Vaults.Registry.{
  create-Kept, rename-Kept, open-Kept, close-Kept, lock-Kept, delete-Kept, set_default-Kept,
}
use seance.Core.Vaults.Unlocking.{
  NeverLocks, IsGuarded, on_store-Kept, unlock-Kept, try_unlock-Kept, save_host-Kept,
  delete_host-Kept, rebuild_all-Kept,
}

-- `changes` is any other call of a database that changes it, as saving a credential.
pub data VaultCall (S : Type 0) : Type 0 where
  creates : Writes → Text → Text → ℤ → Option S → VaultCall S
  renames : Writes → Text → Text → ℤ → VaultCall S
  opens : Writes → Text → Option S → VaultCall S
  closes sets_default : Writes → Text → VaultCall S
  locks : Text → VaultCall S
  deletes : Writes → Text → Bool → VaultCall S
  unlocks : Writes → Text → Option S → StoreCall S (Unit {0}) → VaultCall S
  unlocks_with_device : Writes → Text → Option S → StoreCall S Bool → VaultCall S
  saves_host : Text → StoreCall S Text → VaultCall S
  deletes_host : Text → Text → StoreCall S Bool → VaultCall S
  changes : Text → StoreCall S (Unit {0}) → VaultCall S
  rebuilds_all : VaultCall S

-- What a call makes of a database locks nothing.
abbrev pub LocksNothing : {S : Type 0} → VaultStoreApi S → VaultCall S → Type 0
LocksNothing api (creates io name vault_id now created) = Unit
LocksNothing api (renames io vault_id name now) = Unit
LocksNothing api (opens io vault_id opened) = Unit
LocksNothing api (closes io vault_id) = Unit
LocksNothing api (sets_default io vault_id) = Unit
LocksNothing api (locks vault_id) = Unit
LocksNothing api (deletes io vault_id removable) = Unit
LocksNothing api (unlocks io vault_id opened unlock) = NeverLocks api unlock
LocksNothing api (unlocks_with_device io vault_id opened try_unlock) = NeverLocks api try_unlock
LocksNothing api (saves_host vault_id store_host) = NeverLocks api store_host
LocksNothing api (deletes_host vault_id host_id delete) = NeverLocks api delete
LocksNothing api (changes vault_id change) = NeverLocks api change
LocksNothing api rebuilds_all = Unit

module _ {F S : Type 0} (r : Runtime F) (toml : Toml F) (api : VaultStoreApi S) where
  pub step : VaultController F S → VaultCall S → VaultController F S
  step c (creates io name vault_id now created) =
      (create_named_vault r toml api c io name vault_id now created).0
  step c (renames io vault_id name now) = (rename_vault r toml api c io vault_id name now).0
  step c (opens io vault_id opened) = (open_vault r toml api c io vault_id opened).0
  step c (closes io vault_id) = (close_vault r toml api c io vault_id).0
  step c (sets_default io vault_id) = (set_default_target_vault r toml api c io vault_id).0
  step c (locks vault_id) = (lock_vault r toml api c vault_id).0
  step c (deletes io vault_id removable) =
      (delete_vault_permanently r toml api c io vault_id removable).0
  step c (unlocks io vault_id opened unlock) =
      (unlock_vault r toml api c io vault_id opened unlock).0
  step c (unlocks_with_device io vault_id opened try_unlock) =
      (try_unlock_vault_with_device r toml api c io vault_id opened try_unlock).0
  step c (saves_host vault_id store_host) = (save_host r toml api c vault_id store_host).0
  step c (deletes_host vault_id host_id delete) =
      (delete_host r toml api c vault_id host_id delete).0
  step c (changes vault_id change) = (on_store r toml api store_failed c vault_id change).0
  step c rebuilds_all = (rebuild_all_auth_reference_indexes r toml api c).0

  pub run : VaultController F S → List (VaultCall S) → VaultController F S
  unfolding step
  run c [] = c
  run c (call ∷ calls) = run (step c call) calls

  step-IsKept :
      (c : VaultController F S) (call : VaultCall S)
      → IsGuarded api
      → LocksNothing api call
      → IsKept r toml api c
      → IsKept r toml api (step c call)
  unfolding step
  step-IsKept c (creates io name vault_id now created) g n k =
      (create-Kept r toml api c io name vault_id now created k).kept
  step-IsKept c (renames io vault_id name now) g n k =
      (rename-Kept r toml api c io vault_id name now k).kept
  step-IsKept c (opens io vault_id opened) g n k =
      (open-Kept r toml api c io vault_id opened k).kept
  step-IsKept c (closes io vault_id) g n k = (close-Kept r toml api c io vault_id k).kept
  step-IsKept c (sets_default io vault_id) g n k =
      (set_default-Kept r toml api c io vault_id k).kept
  step-IsKept c (locks vault_id) g n k = (lock-Kept r toml api c vault_id k).kept
  step-IsKept c (deletes io vault_id removable) g n k =
      (delete-Kept r toml api c io vault_id removable k).kept
  step-IsKept c (unlocks io vault_id opened unlock) g n k =
      (unlock-Kept r toml api c io vault_id opened unlock n k).kept
  step-IsKept c (unlocks_with_device io vault_id opened try_unlock) g n k =
      (try_unlock-Kept r toml api c io vault_id opened try_unlock n k).kept
  step-IsKept c (saves_host vault_id store_host) g n k =
      (save_host-Kept r toml api c vault_id store_host g n k).kept
  step-IsKept c (deletes_host vault_id host_id delete) g n k =
      (delete_host-Kept r toml api c vault_id host_id delete n k).kept
  step-IsKept c (changes vault_id change) g n k =
      (on_store-Kept r toml api store_failed c vault_id change n k).kept
  step-IsKept c rebuilds_all g n k = (rebuild_all-Kept r toml api c k).kept

  run-kept :
      (calls : List (VaultCall S)) (c : VaultController F S)
      → IsGuarded api
      → All (LocksNothing api) calls
      → IsKept r toml api c
      → IsKept r toml api (run c calls)
  unfolding run
  run-kept [] c g n k = k
  run-kept (call ∷ calls) c g n k = run-kept calls _ g n.1 (step-IsKept c call g n.0 k)

-- Whatever is done to the vaults and their hosts, with whatever failures of the file system and of
-- databases: every host in the index belongs to a vault that is registered, open and unlocked, the
-- index lists under each key and credential exactly its hosts that use it, and the config store holds
-- a valid configuration in its normal form. This is of databases that show no host while they are
-- locked, and that no call given here locks, but `lock`.
pub run-IsKept :
    {F S : Type 0} (r : Runtime F) (toml : Toml F) (api : VaultStoreApi S) (c : VaultController F S)
    (calls : List (VaultCall S))
    → IsGuarded api
    → All (LocksNothing api) calls
    → IsKept r toml api c
    → IsKept r toml api (run r toml api c calls)
run-IsKept r toml api c calls g n k = run-kept r toml api calls c g n k
