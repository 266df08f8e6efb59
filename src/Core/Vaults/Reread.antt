-- ===== src/Core/Vaults/Reread.antt =====
-- Which hosts the index of crates/seance-core/src/lib.rs holds after a vault is read again or unlocked.
use seance.Prelude.{
  Bool, true, false, ◌&&◌, Option, none, some, List, [], if◌then◌else◌, Text, Result, ok, err,
  list_beq, list_beq_iff, nat_eq, list_eq, pair_eq, ◌≡◌, refl, ap, ◌∙◌, inl, inr, arith, Bool-cases,
}
use seance.Prelude.Assoc
use seance.Prelude.Assoc.{lookup-insert}
use seance.Prelude.Member.{contains}
use seance.Config.Model.{Runtime}
use seance.Config.Store.{Toml, Writes}
use seance.Core.AuthIndex.{HostAuthSummary, AuthReferenceIndex, rebuild_vault_auth_reference_index}
use seance.Core.AuthIndex.Hosts.{in_index, among, answered_hosts, rebuild-in_index}
use seance.Core.VaultState.{
  VaultStoreApi, StoreCall, ManagedVaultState, VaultError, VaultController, open_hosts, rebuilt,
  rebuild_index, and_use, set_state, index_failed,
}
use seance.Core.Vaults.{opened_state, note_open, open_state, open_vault}
use seance.Core.Vaults.Access.{call_settled, on_state, on_store, attempted, unlock_vault}

-- The hosts that a database lists, none where the list cannot be read.
abbrev pub listed_hosts : Result Text (List HostAuthSummary) → Text → Bool
listed_hosts (ok hosts) host_id = among hosts host_id
listed_hosts (err e) host_id = false

module _ {S : Type 0} (api : VaultStoreApi S) where
  -- The hosts of a vault that is registered, open and unlocked.
  abbrev pub store_shows : Option S → Text → Bool
  store_shows none host_id = false
  store_shows (some store) host_id =
      api.unlocked store && listed_hosts (api.list_host_auth_summaries store) host_id

  abbrev pub vault_shows : Option (ManagedVaultState S) → Text → Bool
  vault_shows none host_id = false
  vault_shows (some state) host_id = store_shows state.store host_id

-- The answer to the reading of the list.
abbrev pub listing_result :
    {F : Type 0} → Result Text (List HostAuthSummary) → Result (VaultError F) (Unit {0})
listing_result (ok hosts) = ok tt
listing_result (err e) = err index_failed

answered-listed :
    (answer : Result Text (List HostAuthSummary)) (host_id : Text)
    → answered_hosts (some answer) host_id ≡ listed_hosts answer host_id
answered-listed (ok hosts) host_id = refl
answered-listed (err e) host_id = refl

module _ {F S : Type 0} (r : Runtime F) (toml : Toml F) (api : VaultStoreApi S) where
  open_hosts-shows :
      (store : Option S) (host_id : Text)
      → answered_hosts (open_hosts r toml api store) host_id ≡ store_shows api store host_id
  unfolding open_hosts
  open_hosts-shows none host_id = refl
  open_hosts-shows (some store) host_id = elim (Bool-cases (api.unlocked store)) [
    | inl unlocked ↦ rw unlocked (answered-listed (api.list_host_auth_summaries store) host_id)
    | inr locked ↦ rw locked refl
  ]

  rebuilt-index :
      (c : VaultController F S) (answer : AuthReferenceIndex × Result Text (Unit {0}))
      → (rebuilt r toml api c answer).0.auth_reference_index ≡ answer.0
  unfolding rebuilt
  rebuilt-index c (index, ok done) = refl
  rebuilt-index c (index, err e) = refl

  rebuild_index-found :
      (c : VaultController F S) (vault_id vault host_id : Text)
      (found : Option (ManagedVaultState S))
      → Assoc.lookup vault_id c.vaults ≡ found
      → in_index (rebuild_index r toml api c vault_id).0.auth_reference_index vault host_id ≡ (
          if list_beq vault vault_id
          then vault_shows api found host_id
          else in_index c.auth_reference_index vault host_id)
  unfolding rebuild_index
  rebuild_index-found c vault_id vault host_id none e =
      rw (rebuild_index, e)
        (ap (λ index. in_index index vault host_id) (rebuilt-index c _)
          ∙ rebuild-in_index r.to_lowercase c.auth_reference_index vault_id [] none vault host_id)
  rebuild_index-found c vault_id vault host_id (some state) e =
      rw (rebuild_index, e)
        (ap (λ index. in_index index vault host_id) (rebuilt-index c _)
          ∙ rebuild-in_index r.to_lowercase c.auth_reference_index vault_id state.entry.name
              (open_hosts r toml api state.store) vault host_id
          ∙ ap
              (λ b.
                if list_beq vault vault_id
                then b
                else in_index c.auth_reference_index vault host_id)
              (open_hosts-shows state.store host_id))

  rebuilt-vaults :
      (c : VaultController F S) (answer : AuthReferenceIndex × Result Text (Unit {0}))
      → (rebuilt r toml api c answer).0.vaults ≡ c.vaults
  unfolding rebuilt
  rebuilt-vaults c (index, ok done) = refl
  rebuilt-vaults c (index, err e) = refl

  listing-result :
      (c : VaultController F S) (vault_id vault_name : Text)
      (listing : Result Text (List HostAuthSummary))
      → (rebuilt r toml api c (
          rebuild_vault_auth_reference_index r.to_lowercase c.auth_reference_index vault_id
            vault_name
            (some listing))).1
        ≡ listing_result listing
  unfolding rebuilt rebuild_vault_auth_reference_index
  listing-result c vault_id vault_name (ok hosts) = refl
  listing-result c vault_id vault_name (err e) = refl

  -- The reading of a vault that is open and unlocked.
  rebuild_index-unlocked :
      (c : VaultController F S) (vault_id : Text) (state : ManagedVaultState S) (store : S)
      → Assoc.lookup vault_id c.vaults ≡ some state
      → state.store ≡ some store
      → api.unlocked store ≡ true
      → let answer = rebuild_index r toml api c vault_id in
        (answer.1 ≡ listing_result (api.list_host_auth_summaries store))
        × (answer.0.vaults ≡ c.vaults)
  unfolding rebuild_index open_hosts
  rebuild_index-unlocked c vault_id state store found is_open unlocked =
      rw (rebuild_index, found, is_open, unlocked)
        (
          listing-result c vault_id state.entry.name (api.list_host_auth_summaries store),
          rebuilt-vaults c _,
        )

  open_vault-ready :
      (c : VaultController F S) (io : Writes) (vault_id : Text) (opened : Option S)
      (state ready : ManagedVaultState S)
      → Assoc.lookup vault_id c.vaults ≡ some state
      → opened_state r toml api state opened ≡ ok ready
      → contains c.config.config.vaults.open_vault_ids vault_id ≡ true
      → open_vault r toml api c io vault_id opened ≡ (set_state r toml api c vault_id ready, ok tt)
  unfolding open_vault open_state note_open set_state
  open_vault-ready c io vault_id opened state ready registered opens noted =
      rw (open_vault, registered, opens, noted) refl

  on_store-ready :
      (failed : Text → VaultError F) (c : VaultController F S) (vault_id : Text)
      (unlock : StoreCall S (Unit {0})) (state : ManagedVaultState S) (store after : S)
      → Assoc.lookup vault_id c.vaults ≡ some state
      → state.store ≡ some store
      → unlock store ≡ (ok tt, after)
      → on_store r toml api failed c vault_id unlock
        ≡ (set_state r toml api c vault_id (record state { store = some after }), ok tt)
  unfolding on_store on_state call_settled
  on_store-ready failed c vault_id unlock state store after found is_open takes =
      rw (on_store, found, is_open, takes) refl

  lookup-set_state :
      (c : VaultController F S) (vault_id : Text) (state : ManagedVaultState S)
      → Assoc.lookup vault_id (set_state r toml api c vault_id state).vaults ≡ some state
  unfolding set_state
  lookup-set_state c vault_id state =
      ground (arith, lookup-insert vault_id vault_id state c.vaults, list_beq_iff vault_id vault_id)

  -- The controller after a vault has been opened and its database has taken the passphrase.
  abbrev with_unlocked : VaultController F S → Text → ManagedVaultState S → S → VaultController F S
  with_unlocked c vault_id ready after = attempted r toml api (
      set_state r toml api (set_state r toml api c vault_id ready) vault_id
        (record ready { store = some after }))

  unlock_vault-ready :
      (c : VaultController F S) (io : Writes) (vault_id : Text) (opened : Option S)
      (unlock : StoreCall S (Unit {0})) (state ready : ManagedVaultState S) (store after : S)
      → Assoc.lookup vault_id c.vaults ≡ some state
      → opened_state r toml api state opened ≡ ok ready
      → ready.store ≡ some store
      → contains c.config.config.vaults.open_vault_ids vault_id ≡ true
      → unlock store ≡ (ok tt, after)
      → unlock_vault r toml api c io vault_id opened unlock
        ≡ rebuild_index r toml api (with_unlocked c vault_id ready after) vault_id
  unfolding unlock_vault and_use
  unlock_vault-ready c io vault_id opened unlock state ready store after registered opens is_open
        noted takes =
      let d = set_state r toml api c vault_id ready in
      rw
        (
          open_vault-ready c io vault_id opened state ready registered opens noted,
          on_store-ready _ d vault_id unlock ready store after (lookup-set_state c vault_id ready)
              is_open takes,
        )
        refl

-- The index of a vault read again, on every branch: of that vault the index holds the hosts that its
-- database lists, if it is registered, open and unlocked and the list can be read, and no host
-- otherwise; of any other vault it holds what it held.
pub rebuild_index_lem :
    {F S : Type 0} (r : Runtime F) (toml : Toml F) (api : VaultStoreApi S) (c : VaultController F S)
    (vault_id vault host_id : Text)
    → in_index (rebuild_index r toml api c vault_id).0.auth_reference_index vault host_id ≡ (
        if list_beq vault vault_id
        then vault_shows api (Assoc.lookup vault_id c.vaults) host_id
        else in_index c.auth_reference_index vault host_id)
rebuild_index_lem r toml api c vault_id vault host_id =
    rebuild_index-found r toml api c vault_id vault host_id _ refl

-- Unlocking a registered vault whose database opens, if it is not open already, and is noted as open,
-- with a passphrase that the database takes: the vault is registered with the unlocked database, the
-- index holds exactly the hosts that this lists and those of the other vaults as before, and the call
-- succeeds if the list can be read.
pub unlock_vault_lem :
    {F S : Type 0} (r : Runtime F) (toml : Toml F) (api : VaultStoreApi S) (c : VaultController F S)
    (io : Writes) (vault_id : Text) (opened : Option S) (unlock : StoreCall S (Unit {0}))
    (state ready : ManagedVaultState S) (store after : S) (vault host_id : Text)
    → Assoc.lookup vault_id c.vaults ≡ some state
    → opened_state r toml api state opened ≡ ok ready
    → ready.store ≡ some store
    → contains c.config.config.vaults.open_vault_ids vault_id ≡ true
    → unlock store ≡ (ok tt, after)
    → api.unlocked after ≡ true
    → let answer = unlock_vault r toml api c io vault_id opened unlock in
      (answer.1 ≡ listing_result (api.list_host_auth_summaries after))
      × (Assoc.lookup vault_id answer.0.vaults ≡ some (record ready { store = some after }))
      × (in_index answer.0.auth_reference_index vault host_id ≡ (
          if list_beq vault vault_id
          then listed_hosts (api.list_host_auth_summaries after) host_id
          else in_index c.auth_reference_index vault host_id))
unfolding set_state attempted
unlock_vault_lem r toml api c io vault_id opened unlock state ready store after vault host_id
      registered opens is_open noted takes unlocked =
    let final : ManagedVaultState _ = record ready { store = some after } in
    let e = with_unlocked r toml api c vault_id ready after in
    let found : Assoc.lookup vault_id e.vaults ≡ some final =
      lookup-set_state r toml api (set_state r toml api c vault_id ready) vault_id final in
    let parts = rebuild_index-unlocked r toml api e vault_id final after found refl unlocked in
    let shown = rebuild_index-found r toml api e vault_id vault host_id (some final) found in
    rw
      (unlock_vault-ready r toml api c io vault_id opened unlock state ready store after registered
        opens is_open noted takes)
      (parts.0, ap (Assoc.lookup vault_id) parts.1 ∙ found, ground (arith, shown))
