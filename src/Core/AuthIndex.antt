-- ===== src/Core/AuthIndex.antt =====
-- The index from keys and credentials to the hosts that use them, AuthReferenceIndex and the calls
-- of AppController on it in crates/seance-core/src/lib.rs, with the two types of
-- crates/seance-vault/src/model.rs that it reads. Unicode's to_lowercase is a parameter.
pub mod Refs
pub mod Indexed
pub mod Collect
pub mod Calls
pub mod Effects
pub mod Hosts
pub mod Tests
use mathlib.Core.Option.{get_or}
use seance.Prelude.{
  ℕ, Bool, true, false, not, ◌&&◌, ◌||◌, Option, none, some, List, [], ◌∷◌, ◌++◌, map,
  if◌then◌else◌, is_empty, Text, Result, ok, err, list_beq, nat_eq, list_eq, pair_eq,
}
use seance.Prelude.Assoc
use seance.Prelude.Member.{contains}
use seance.Prelude.SortBy.{any, retain, sort_by, text_ltb}

pub data HostAuthRef : Type 0 where
  password : Text → HostAuthRef
  private_key : Text → Option Text → HostAuthRef

pub record HostAuthSummary : Type 0 where
  pub host_id : Text
  pub host_label : Text
  pub auth_order : List HostAuthRef

pub record HostReferenceSummary : Type 0 where
  pub vault_id : Text
  pub vault_name : Text
  pub host_id : Text
  pub host_label : Text

pub record IndexedHostAuthReferences : Type 0 where
  pub host_reference : HostReferenceSummary
  pub key_ids : List Text
  pub credential_ids : List Text

-- A vault's id with that of a host, a key or a credential.
abbrev pub Scope : Type 0
Scope = Text × Text

pub record AuthReferenceIndex : Type 0 where
  pub hosts_by_scope : List (Scope × IndexedHostAuthReferences)
  pub hosts_for_keys : List (Scope × List HostReferenceSummary)
  pub hosts_for_credentials : List (Scope × List HostReferenceSummary)

-- HashSet::insert
pub insert_id : List Text → Text → List Text
insert_id ids id = if contains ids id then ids else id ∷ ids

pub insert_optional : List Text → Option Text → List Text
unfolding insert_id
insert_optional ids none = ids
insert_optional ids (some id) = insert_id ids id

-- The loop over the ways to log in, with the two sets.
pub collect_ids : List Text × List Text → List HostAuthRef → List Text × List Text
unfolding insert_id insert_optional
collect_ids sets [] = sets
collect_ids (key_ids, credential_ids) (password credential_id ∷ rest) =
    collect_ids (key_ids, insert_id credential_ids credential_id) rest
collect_ids (key_ids, credential_ids) (private_key key_id passphrase_credential_id ∷ rest) =
    collect_ids (insert_id key_ids key_id, insert_optional credential_ids passphrase_credential_id)
      rest

-- `sort()` of texts.
pub sort_ids : List Text → List Text
sort_ids ids = sort_by (λ a b. not (text_ltb b a)) ids

pub collect_host_auth_reference_ids : List HostAuthRef → List Text × List Text
unfolding collect_ids sort_ids
collect_host_auth_reference_ids auth_order =
    let (key_ids, credential_ids) = collect_ids ([], []) auth_order in
    (sort_ids key_ids, sort_ids credential_ids)

-- `get(&scope).cloned().unwrap_or_default()`
pub refs_at : Scope → List (Scope × List HostReferenceSummary) → List HostReferenceSummary
refs_at scope refs = get_or (Assoc.lookup scope refs) []

-- `retain(|host| host.host_id != host_id)`, and the whole entry goes when nothing is left.
pub drop_host :
    List (Scope × List HostReferenceSummary)
    → Scope
    → Text
    → List (Scope × List HostReferenceSummary)
drop_host refs scope host_id = elim (Assoc.lookup scope refs) [
  | none ↦ refs
  | some hosts ↦
      let kept =
        retain (λ (host : HostReferenceSummary). not (list_beq host.host_id host_id)) hosts in
      if is_empty kept then Assoc.remove scope refs else Assoc.insert scope kept refs
]

-- The loop over the host's key ids, or over its credential ids.
pub drop_hosts :
    List (Scope × List HostReferenceSummary)
    → Text
    → Text
    → List Text
    → List (Scope × List HostReferenceSummary)
unfolding drop_host
drop_hosts refs vault_id host_id [] = refs
drop_hosts refs vault_id host_id (id ∷ ids) =
    drop_hosts (drop_host refs (vault_id, id) host_id) vault_id host_id ids

pub drop_entry : AuthReferenceIndex → Scope → IndexedHostAuthReferences → AuthReferenceIndex
unfolding drop_hosts
drop_entry index scope entry = record {
  hosts_by_scope = Assoc.remove scope index.hosts_by_scope;
  hosts_for_keys = drop_hosts index.hosts_for_keys scope.0 scope.1 entry.key_ids;
  hosts_for_credentials =
      drop_hosts index.hosts_for_credentials scope.0 scope.1 entry.credential_ids;
}

pub remove_host_auth_reference_by_scope : AuthReferenceIndex → Scope → AuthReferenceIndex
unfolding drop_entry
remove_host_auth_reference_by_scope index scope = elim (Assoc.lookup scope index.hosts_by_scope) [
  | none ↦ index
  | some entry ↦ drop_entry index scope entry
]

pub remove_scopes : AuthReferenceIndex → List Scope → AuthReferenceIndex
unfolding remove_host_auth_reference_by_scope
remove_scopes index [] = index
remove_scopes index (scope ∷ scopes) =
    remove_scopes (remove_host_auth_reference_by_scope index scope) scopes

-- The scopes of one vault.
pub host_scopes : List (Scope × IndexedHostAuthReferences) → Text → List Scope
host_scopes hosts vault_id =
    retain (λ (scope : Scope). list_beq scope.0 vault_id)
      (map (λ (entry : Scope × IndexedHostAuthReferences). entry.0) hosts)

pub remove_vault_auth_reference_index : AuthReferenceIndex → Text → AuthReferenceIndex
unfolding remove_scopes host_scopes
remove_vault_auth_reference_index index vault_id =
    remove_scopes index (host_scopes index.hosts_by_scope vault_id)

module _ (to_lowercase : Text → Text) where
  -- Whether the comparison of two references is not Greater.
  pub reference_le : HostReferenceSummary → HostReferenceSummary → Bool
  reference_le left right =
      let l = to_lowercase left.host_label in
      let r = to_lowercase right.host_label in
      text_ltb l r || (list_beq l r && not (text_ltb right.host_id left.host_id))

  pub sort_host_references : List HostReferenceSummary → List HostReferenceSummary
  unfolding reference_le
  sort_host_references hosts = sort_by reference_le hosts

  -- `entry(key).or_default()`, a push and the sort.
  pub push_ref :
      List (Scope × List HostReferenceSummary)
      → Scope
      → HostReferenceSummary
      → List (Scope × List HostReferenceSummary)
  unfolding refs_at sort_host_references
  push_ref refs scope reference =
      Assoc.insert scope (sort_host_references (refs_at scope refs ++ reference ∷ [])) refs

  pub push_refs :
      List (Scope × List HostReferenceSummary)
      → Text
      → List Text
      → HostReferenceSummary
      → List (Scope × List HostReferenceSummary)
  unfolding push_ref
  push_refs refs vault_id [] reference = refs
  push_refs refs vault_id (id ∷ ids) reference =
      push_refs (push_ref refs (vault_id, id) reference) vault_id ids reference

  pub add_entry : AuthReferenceIndex → Scope → IndexedHostAuthReferences → AuthReferenceIndex
  unfolding push_refs
  add_entry index scope entry = record {
    hosts_by_scope = Assoc.insert scope entry index.hosts_by_scope;
    hosts_for_keys = push_refs index.hosts_for_keys scope.0 entry.key_ids entry.host_reference;
    hosts_for_credentials =
        push_refs index.hosts_for_credentials scope.0 entry.credential_ids entry.host_reference;
  }

  pub index_entry : Text → Text → HostAuthSummary → IndexedHostAuthReferences
  index_entry vault_id vault_name host =
      let (key_ids, credential_ids) = collect_host_auth_reference_ids host.auth_order in
      record {
        host_reference = record {
          vault_id = vault_id;
          vault_name = vault_name;
          host_id = host.host_id;
          host_label = host.host_label;
        };
        key_ids = key_ids;
        credential_ids = credential_ids;
      }

  pub upsert_host_auth_reference_summary :
      AuthReferenceIndex → Text → Text → HostAuthSummary → AuthReferenceIndex
  unfolding add_entry index_entry
  upsert_host_auth_reference_summary index vault_id vault_name host =
      let scope : Scope = (vault_id, host.host_id) in
      add_entry (remove_host_auth_reference_by_scope index scope) scope
        (index_entry vault_id vault_name host)

  pub upsert_all : AuthReferenceIndex → Text → Text → List HostAuthSummary → AuthReferenceIndex
  unfolding upsert_host_auth_reference_summary
  upsert_all index vault_id vault_name [] = index
  upsert_all index vault_id vault_name (host ∷ hosts) =
      upsert_all (upsert_host_auth_reference_summary index vault_id vault_name host) vault_id
        vault_name hosts

  -- `hosts` is what an open and unlocked vault answers, and `none` for any other vault.
  unfoldable pub rebuild_vault_auth_reference_index :
      AuthReferenceIndex
      → Text
      → Text
      → Option (Result Text (List HostAuthSummary))
      → AuthReferenceIndex × Result Text (Unit {0})
  unfolding upsert_all
  rebuild_vault_auth_reference_index index vault_id vault_name none =
      (remove_vault_auth_reference_index index vault_id, ok tt)
  rebuild_vault_auth_reference_index index vault_id vault_name (some (err e)) =
      (remove_vault_auth_reference_index index vault_id, err e)
  rebuild_vault_auth_reference_index index vault_id vault_name (some (ok hosts)) = (
    upsert_all (remove_vault_auth_reference_index index vault_id) vault_id vault_name hosts,
    ok tt,
  )
