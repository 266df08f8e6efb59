-- ===== src/Core/AuthIndex/Calls.antt =====
-- Any sequence of calls on the index of crates/seance-core/src/lib.rs.
use seance.Prelude.{
  Option, none, some, List, [], ◌∷◌, Text, Result, ok, err, nat_eq, list_eq, pair_eq, ◌≡◌, ◌∙◌,
  arith,
}
use seance.Prelude.Assoc
use seance.Prelude.Assoc.{lookup-insert}
use seance.Core.AuthIndex.{
  Scope, HostAuthSummary, AuthReferenceIndex, host_scopes, index_entry,
  remove_host_auth_reference_by_scope, remove_scopes, remove_vault_auth_reference_index,
  upsert_host_auth_reference_summary, upsert_all, rebuild_vault_auth_reference_index,
}
use seance.Core.AuthIndex.Refs.{same_scope_refl, refs_at-nil}
use seance.Core.AuthIndex.Indexed.{
  IsIndexed, removed-IsIndexed, lookup-removed, add_entry-IsIndexed,
}

remove_scopes-IsIndexed :
    (scopes : List Scope) (index : AuthReferenceIndex)
    → IsIndexed index
    → IsIndexed (remove_scopes index scopes)
unfolding remove_scopes
remove_scopes-IsIndexed [] index i = i
remove_scopes-IsIndexed (s ∷ scopes) index i =
    remove_scopes-IsIndexed scopes _ (removed-IsIndexed index s i)

pub remove_vault-IsIndexed :
    (index : AuthReferenceIndex) (vault_id : Text)
    → IsIndexed index
    → IsIndexed (remove_vault_auth_reference_index index vault_id)
unfolding remove_vault_auth_reference_index
remove_vault-IsIndexed index vault_id i =
    remove_scopes-IsIndexed (host_scopes index.hosts_by_scope vault_id) index i

pub data IndexCall : Type 0 where
  upserts : Text → Text → HostAuthSummary → IndexCall
  removes_host : Text → Text → IndexCall
  removes_vault : Text → IndexCall
  rebuilds : Text → Text → Option (Result Text (List HostAuthSummary)) → IndexCall

module _ (to_lowercase : Text → Text) where
  pub step : AuthReferenceIndex → IndexCall → AuthReferenceIndex
  step index (upserts vault_id vault_name host) =
      upsert_host_auth_reference_summary to_lowercase index vault_id vault_name host
  step index (removes_host vault_id host_id) =
      remove_host_auth_reference_by_scope index (vault_id, host_id)
  step index (removes_vault vault_id) = remove_vault_auth_reference_index index vault_id
  step index (rebuilds vault_id vault_name hosts) =
      (rebuild_vault_auth_reference_index to_lowercase index vault_id vault_name hosts).0

  pub run : AuthReferenceIndex → List IndexCall → AuthReferenceIndex
  unfolding step
  run index [] = index
  run index (call ∷ calls) = run (step index call) calls

  removed_first :
      (index : AuthReferenceIndex) (s : Scope)
      → Assoc.lookup s (remove_host_auth_reference_by_scope index s).hosts_by_scope ≡ none
  removed_first index s = lookup-removed index s s ∙ ground (arith, same_scope_refl s)

  pub upsert-IsIndexed :
      (index : AuthReferenceIndex) (vault_id vault_name : Text) (host : HostAuthSummary)
      → IsIndexed index
      → IsIndexed (upsert_host_auth_reference_summary to_lowercase index vault_id vault_name host)
  unfolding upsert_host_auth_reference_summary index_entry
  upsert-IsIndexed index vault_id vault_name host i =
      add_entry-IsIndexed to_lowercase _ (index_entry to_lowercase vault_id vault_name host)
        (removed-IsIndexed index (vault_id, host.host_id) i)
        (removed_first index (vault_id, host.host_id))

  upsert_all-IsIndexed :
      (hosts : List HostAuthSummary) (index : AuthReferenceIndex) (vault_id vault_name : Text)
      → IsIndexed index
      → IsIndexed (upsert_all to_lowercase index vault_id vault_name hosts)
  unfolding upsert_all
  upsert_all-IsIndexed [] index vault_id vault_name i = i
  upsert_all-IsIndexed (host ∷ hosts) index vault_id vault_name i =
      upsert_all-IsIndexed hosts _ vault_id vault_name
        (upsert-IsIndexed index vault_id vault_name host i)

  pub rebuild-IsIndexed :
      (index : AuthReferenceIndex) (vault_id vault_name : Text)
      (hosts : Option (Result Text (List HostAuthSummary)))
      → IsIndexed index
      → IsIndexed
          (rebuild_vault_auth_reference_index to_lowercase index vault_id vault_name hosts).0
  unfolding rebuild_vault_auth_reference_index
  rebuild-IsIndexed index vault_id vault_name none i = remove_vault-IsIndexed index vault_id i
  rebuild-IsIndexed index vault_id vault_name (some (err e)) i =
      remove_vault-IsIndexed index vault_id i
  rebuild-IsIndexed index vault_id vault_name (some (ok hosts)) i =
      upsert_all-IsIndexed hosts _ vault_id vault_name (remove_vault-IsIndexed index vault_id i)

  step-IsIndexed :
      (index : AuthReferenceIndex) (call : IndexCall)
      → IsIndexed index
      → IsIndexed (step index call)
  unfolding step
  step-IsIndexed index (upserts vault_id vault_name host) i =
      upsert-IsIndexed index vault_id vault_name host i
  step-IsIndexed index (removes_host vault_id host_id) i =
      removed-IsIndexed index (vault_id, host_id) i
  step-IsIndexed index (removes_vault vault_id) i = remove_vault-IsIndexed index vault_id i
  step-IsIndexed index (rebuilds vault_id vault_name hosts) i =
      rebuild-IsIndexed index vault_id vault_name hosts i

  run-IsIndexed_from :
      (calls : List IndexCall) (index : AuthReferenceIndex)
      → IsIndexed index
      → IsIndexed (run index calls)
  unfolding run
  run-IsIndexed_from [] index i = i
  run-IsIndexed_from (call ∷ calls) index i =
      run-IsIndexed_from calls _ (step-IsIndexed index call i)

-- AuthReferenceIndex::default()
abbrev pub empty_index : AuthReferenceIndex
empty_index = record { hosts_by_scope = []; hosts_for_keys = []; hosts_for_credentials = [] }

pub empty-IsIndexed : IsIndexed empty_index
empty-IsIndexed = record {
  scoped = tt;
  keys = λ p v id h. unfold Assoc.lookup in refs_at-nil p v id h;
  credentials = λ p v id h. unfold Assoc.lookup in refs_at-nil p v id h;
}

-- Whatever calls are made on the index, from the empty one: under each key and each credential
-- stand the references of exactly those indexed hosts that use it, and each host is indexed under
-- its own vault and id.
pub run-IsIndexed :
    (to_lowercase : Text → Text) (calls : List IndexCall)
    → IsIndexed (run to_lowercase empty_index calls)
run-IsIndexed to_lowercase calls = run-IsIndexed_from to_lowercase calls empty_index empty-IsIndexed
