-- ===== src/Core/Vaults/Removal.antt =====
-- Deleting a vault, crates/seance-core/src/lib.rs.
use seance.Prelude.{
  Bool, true, false, not, ◌&&◌, none, some, if◌then◌else◌, Text, Result, ok, err, list_beq, nat_eq,
  list_eq, ◌≡◌, refl, ap, ◌∙◌,
}
use seance.Prelude.Assoc
use seance.Prelude.Assoc.{lookup-remove, lookup-insert}
use seance.Config.Model.{Runtime}
use seance.Config.Store.{Toml, Writes}
use seance.Core.AuthIndex.{HostReferenceSummary, remove_vault_auth_reference_index}
use seance.Core.AuthIndex.Refs.{listed}
use seance.Core.AuthIndex.Indexed.{IsIndexed}
use seance.Core.AuthIndex.Effects.{remove_vault_lem}
use seance.Core.VaultState.{
  VaultStoreApi, ManagedVaultState, VaultError, remove_file_failed, VaultController, with_vaults,
  delete_entry, update_config, and_then, remove_index,
}
use seance.Core.Vaults.{is_unlocked, delete_state, delete_vault_permanently}
use seance.Core.Vaults.Rename.{update_config-parts}

module _ {F S : Type 0} (r : Runtime F) (toml : Toml F) (api : VaultStoreApi S) where
  -- Whether or not the file could be removed, the controller is the same.
  after_file :
      (answer : VaultController F S × Result (VaultError F) (Unit {0})) (removable : Bool)
      (e : VaultError F)
      → (and_then r toml api answer (λ d. if removable then (d, ok tt) else (d, err e))).0
        ≡ answer.0
  unfolding and_then
  after_file (d, ok done) true e = refl
  after_file (d, ok done) false e = refl
  after_file (d, err e) removable f = refl

  delete_passes :
      (c : VaultController F S) (io : Writes) (vault_id : Text) (removable : Bool)
      (state : ManagedVaultState S)
      → Assoc.lookup vault_id c.vaults ≡ some state
      → delete_vault_permanently r toml api c io vault_id removable
        ≡ delete_state r toml api c io vault_id state removable
  unfolding delete_vault_permanently
  delete_passes c io vault_id removable state e = rw (delete_vault_permanently, e) refl

  -- The controller before the configuration is changed.
  abbrev without : VaultController F S → Text → VaultController F S
  without c vault_id =
      remove_index r toml api (record c { vaults = Assoc.remove vault_id c.vaults }) vault_id

  deleted_locked :
      (c : VaultController F S) (io : Writes) (vault_id : Text) (removable : Bool)
      (state : ManagedVaultState S)
      → is_unlocked r toml api state.store ≡ false
      → (delete_state r toml api c io vault_id state removable).0
        ≡ (update_config r toml api (without c vault_id) io (with_vaults (delete_entry vault_id))).0
  unfolding delete_state
  deleted_locked c io vault_id removable state locked =
      rw (delete_state, locked)
        (after_file
          (update_config r toml api (without c vault_id) io (with_vaults (delete_entry vault_id)))
          removable remove_file_failed)

  deleted_parts :
      (c : VaultController F S) (io : Writes) (vault_id : Text) (removable : Bool)
      (state : ManagedVaultState S)
      → is_unlocked r toml api state.store ≡ false
      → let d = (delete_state r toml api c io vault_id state removable).0 in
        (d.vaults ≡ Assoc.remove vault_id c.vaults)
        × (d.auth_reference_index
            ≡ remove_vault_auth_reference_index c.auth_reference_index vault_id)
  unfolding remove_index
  deleted_parts c io vault_id removable state locked =
      let parts =
        update_config-parts r toml api (without c vault_id) io
          (with_vaults (delete_entry vault_id)) in
      let same = deleted_locked c io vault_id removable state locked in
      (ap (λ d. d.vaults) same ∙ parts.0, ap (λ d. d.auth_reference_index) same ∙ parts.1)

-- Deleting a vault that is not unlocked, whatever the config store and the file system answer: in
-- memory it is gone, with all its hosts from the index, and every other vault with its hosts is as
-- it was.
pub delete_vault_lem :
    {F S : Type 0} (r : Runtime F) (toml : Toml F) (api : VaultStoreApi S) (c : VaultController F S)
    (io : Writes) (vault_id : Text) (removable : Bool) (state : ManagedVaultState S)
    (p : HostReferenceSummary → Bool) (other id host_id : Text)
    → IsIndexed c.auth_reference_index
    → Assoc.lookup vault_id c.vaults ≡ some state
    → is_unlocked r toml api state.store ≡ false
    → let d = (delete_vault_permanently r toml api c io vault_id removable).0 in
      (Assoc.lookup other d.vaults
        ≡ (if list_beq vault_id other then none else Assoc.lookup other c.vaults))
      × (listed p d.auth_reference_index.hosts_for_keys other id host_id ≡ (
          not (list_beq other vault_id)
          && listed p c.auth_reference_index.hosts_for_keys other id host_id))
      × (listed p d.auth_reference_index.hosts_for_credentials other id host_id ≡ (
          not (list_beq other vault_id)
          && listed p c.auth_reference_index.hosts_for_credentials other id host_id))
delete_vault_lem r toml api c io vault_id removable state p other id host_id i e locked =
    let parts = deleted_parts r toml api c io vault_id removable state locked in
    let gone = remove_vault_lem c.auth_reference_index vault_id p other id host_id i in
    rw (delete_passes r toml api c io vault_id removable state e, parts.1)
      (ap (Assoc.lookup other) parts.0 ∙ lookup-remove vault_id other c.vaults, gone.1, gone.2)
