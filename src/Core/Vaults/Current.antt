-- ===== src/Core/Vaults/Current.antt =====
-- The hosts in the index of crates/seance-core/src/lib.rs against the vaults that they belong to, under
-- each change of the vaults and of the index.
use seance.Prelude.{
  Bool, true, false, Option, none, some, List, [], Text, list_beq, list_beq_iff, nat_eq, list_eq,
  pair_eq, ◌≡◌, sym, ap, subst, ◌∙◌, inl, inr, arith, Bool-cases,
}
use seance.Prelude.Assoc
use seance.Prelude.Assoc.{lookup-insert, lookup-remove}
use seance.Config.Model.{Runtime}
use seance.Config.Store.{Toml}
use seance.Core.AuthIndex.{
  Scope, HostAuthSummary, AuthReferenceIndex, remove_host_auth_reference_by_scope,
  remove_vault_auth_reference_index, upsert_host_auth_reference_summary,
  rebuild_vault_auth_reference_index,
}
use seance.Core.AuthIndex.Hosts.{in_index, rebuild-others, rebuild-none}
use seance.Core.AuthIndex.Indexed.{lookup-removed}
use seance.Core.AuthIndex.Calls.{empty_index}
use seance.Core.AuthIndex.Effects.{lookup-remove_vault, lookup-upsert}
use seance.Core.VaultState.{VaultStoreApi, ManagedVaultState, open_hosts}

module _ {S : Type 0} (api : VaultStoreApi S) where
  abbrev pub open_unlocked : Option S → Bool
  open_unlocked none = false
  open_unlocked (some store) = api.unlocked store

  abbrev pub vault_unlocked : Option (ManagedVaultState S) → Bool
  vault_unlocked none = false
  vault_unlocked (some state) = open_unlocked state.store

  -- Each host in the index is one of a vault that is open and unlocked.
  abbrev pub Current : List (Text × ManagedVaultState S) → AuthReferenceIndex → Type 0
  Current vaults index =
      (vault host_id : Text)
      → in_index index vault host_id ≡ true
      → vault_unlocked (Assoc.lookup vault vaults) ≡ true

  -- The same of every vault but one.
  abbrev pub CurrentBut : Text → List (Text × ManagedVaultState S) → AuthReferenceIndex → Type 0
  CurrentBut vault_id vaults index =
      (vault host_id : Text)
      → list_beq vault vault_id ≡ false
      → in_index index vault host_id ≡ true
      → vault_unlocked (Assoc.lookup vault vaults) ≡ true

  pub insert-CurrentBut :
      (vaults : List (Text × ManagedVaultState S)) (index : AuthReferenceIndex) (vault_id : Text)
      (state : ManagedVaultState S)
      → Current vaults index
      → CurrentBut vault_id (Assoc.insert vault_id state vaults) index
  insert-CurrentBut vaults index vault_id state k vault host_id other present = ground (
    arith,
    lookup-insert vault_id vault state vaults,
    list_beq_iff vault vault_id,
    list_beq_iff vault_id vault,
    k vault host_id present,
  )

  pub remove-CurrentBut :
      (vaults : List (Text × ManagedVaultState S)) (index : AuthReferenceIndex) (vault_id : Text)
      → Current vaults index
      → CurrentBut vault_id (Assoc.remove vault_id vaults) index
  remove-CurrentBut vaults index vault_id k vault host_id other present = ground (
    arith,
    lookup-remove vault_id vault vaults,
    list_beq_iff vault vault_id,
    list_beq_iff vault_id vault,
    k vault host_id present,
  )

  -- A vault that is unlocked if it was so before.
  pub insert-Current :
      (vaults : List (Text × ManagedVaultState S)) (index : AuthReferenceIndex) (vault_id : Text)
      (old state : ManagedVaultState S)
      → Assoc.lookup vault_id vaults ≡ some old
      → (open_unlocked old.store ≡ true → open_unlocked state.store ≡ true)
      → Current vaults index
      → Current (Assoc.insert vault_id state vaults) index
  insert-Current vaults index vault_id old state found stays k vault host_id present =
      elim (Bool-cases (list_beq vault_id vault)) [
        | inl own ↦
            let same : vault_id ≡ vault = (list_beq_iff vault_id vault).0 own in
            let found_there : Assoc.lookup vault vaults ≡ some old =
              ap (λ id. Assoc.lookup id vaults) (sym same) ∙ found in
            let was : open_unlocked old.store ≡ true =
              ap vault_unlocked (sym found_there) ∙ k vault host_id present in
            rw (lookup-insert vault_id vault state vaults, own) (stays was)
        | inr other ↦
            rw (lookup-insert vault_id vault state vaults, other) (k vault host_id present)
      ]

  pub remove_vault-Current :
      (vaults : List (Text × ManagedVaultState S)) (index : AuthReferenceIndex) (vault_id : Text)
      → CurrentBut vault_id vaults index
      → Current vaults (remove_vault_auth_reference_index index vault_id)
  remove_vault-Current vaults index vault_id k vault host_id present =
      let gone = lookup-remove_vault index vault_id (vault, host_id) in
      elim (Bool-cases (list_beq vault vault_id)) [
        | inl own ↦ ground (arith, gone)
        | inr other ↦ k vault host_id other (ground (arith, gone))
      ]

  pub removed-Current :
      (vaults : List (Text × ManagedVaultState S)) (index : AuthReferenceIndex) (scope : Scope)
      → Current vaults index
      → Current vaults (remove_host_auth_reference_by_scope index scope)
  removed-Current vaults index scope k vault host_id present =
      k vault host_id (ground (arith, lookup-removed index scope (vault, host_id)))

  -- A host of a vault that is unlocked.
  pub upsert-Current :
      (to_lowercase : Text → Text) (vaults : List (Text × ManagedVaultState S))
      (index : AuthReferenceIndex) (vault_id vault_name : Text) (host : HostAuthSummary)
      → vault_unlocked (Assoc.lookup vault_id vaults) ≡ true
      → Current vaults index
      → Current vaults
          (upsert_host_auth_reference_summary to_lowercase index vault_id vault_name host)
  upsert-Current to_lowercase vaults index vault_id vault_name host unlocked k vault host_id
        present =
      let found = lookup-upsert to_lowercase index vault_id vault_name host (vault, host_id) in
      elim (Bool-cases (list_beq vault_id vault)) [
        | inl own ↦
            subst (λ id. vault_unlocked (Assoc.lookup id vaults) ≡ true)
              ((list_beq_iff vault_id vault).0 own) unlocked
        | inr other ↦ k vault host_id (ground (arith, found))
      ]

  rebuild-own :
      {F : Type 0} (r : Runtime F) (toml : Toml F) (index : AuthReferenceIndex)
      (vault_id vault_name : Text) (store : Option S) (vault host_id : Text)
      → list_beq vault vault_id ≡ true
      → in_index
          (rebuild_vault_auth_reference_index r.to_lowercase index vault_id vault_name
            (open_hosts r toml api store)).0
          vault
          host_id
        ≡ true
      → open_unlocked store ≡ true
  unfolding open_hosts
  rebuild-own r toml index vault_id vault_name none vault host_id own present =
      ground (arith, rebuild-none r.to_lowercase index vault_id vault_name vault host_id own)
  rebuild-own r toml index vault_id vault_name (some store) vault host_id own present =
      elim (Bool-cases (api.unlocked store)) [
        | inl unlocked ↦ unlocked
        | inr locked ↦
            let nothing = rebuild-none r.to_lowercase index vault_id vault_name vault host_id own in
            ground (arith, nothing)
      ]

  pub rebuild-Current :
      {F : Type 0} (r : Runtime F) (toml : Toml F) (vaults : List (Text × ManagedVaultState S))
      (index : AuthReferenceIndex) (vault_id : Text) (state : ManagedVaultState S)
      → Assoc.lookup vault_id vaults ≡ some state
      → CurrentBut vault_id vaults index
      → Current vaults
          (rebuild_vault_auth_reference_index r.to_lowercase index vault_id state.entry.name
            (open_hosts r toml api state.store)).0
  rebuild-Current r toml vaults index vault_id state found k vault host_id present =
      elim (Bool-cases (list_beq vault vault_id)) [
        | inl own ↦
            let same : vault ≡ vault_id = (list_beq_iff vault vault_id).0 own in
            let found_there : Assoc.lookup vault vaults ≡ some state =
              ap (λ id. Assoc.lookup id vaults) same ∙ found in
            ap vault_unlocked found_there
            ∙ rebuild-own r toml index vault_id state.entry.name state.store vault host_id own
                present
        | inr other ↦ k vault host_id other (
            sym (
              rebuild-others r.to_lowercase index vault_id state.entry.name
                (open_hosts r toml api state.store) vault host_id other)
            ∙ present)
      ]

  -- A vault that is not registered has no hosts.
  pub rebuild_none-Current :
      (to_lowercase : Text → Text) (vaults : List (Text × ManagedVaultState S))
      (index : AuthReferenceIndex) (vault_id : Text)
      → CurrentBut vault_id vaults index
      → Current vaults (rebuild_vault_auth_reference_index to_lowercase index vault_id [] none).0
  rebuild_none-Current to_lowercase vaults index vault_id k vault host_id present =
      elim (Bool-cases (list_beq vault vault_id)) [
        | inl own ↦ ground (arith, rebuild-none to_lowercase index vault_id [] vault host_id own)
        | inr other ↦
            k vault host_id other (
              sym (rebuild-others to_lowercase index vault_id [] none vault host_id other)
              ∙ present)
      ]

  pub empty-Current : (vaults : List (Text × ManagedVaultState S)) → Current vaults empty_index
  unfolding Assoc.lookup
  empty-Current vaults vault host_id present = ground arith
