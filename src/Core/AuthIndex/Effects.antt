-- ===== src/Core/AuthIndex/Effects.antt =====
-- What single calls do to the index of crates/seance-core/src/lib.rs.
use seance.Prelude.{
  Bool, not, ◌&&◌, none, some, List, [], ◌∷◌, is_some, if◌then◌else◌, Text, list_beq, list_beq_iff,
  nat_eq, list_eq, pair_eq, ◌≡◌, refl, ap, ◌∙◌, inl, inr, arith, Bool-cases,
}
use seance.Prelude.Assoc
use seance.Prelude.Assoc.{lookup-insert}
use seance.Prelude.Member.{contains}
use seance.Prelude.SortBy.{any, retain}
use seance.Core.AuthIndex.{
  Scope, HostAuthSummary, HostReferenceSummary, AuthReferenceIndex, host_scopes, add_entry,
  index_entry, remove_host_auth_reference_by_scope, remove_scopes,
  remove_vault_auth_reference_index, upsert_host_auth_reference_summary,
}
use seance.Core.AuthIndex.Refs.{same_scope, listed}
use seance.Core.AuthIndex.Indexed.{IsIndexed, Hosts, uses, lookup-removed}
use seance.Core.AuthIndex.Collect.{names_key, names_credential, collect_host_auth_reference_ids_lem}
use seance.Core.AuthIndex.Calls.{upsert-IsIndexed, remove_vault-IsIndexed}

lookup-remove_scopes :
    (scopes : List Scope) (index : AuthReferenceIndex) (t : Scope)
    → Assoc.lookup t (remove_scopes index scopes).hosts_by_scope
      ≡ (if contains scopes t then none else Assoc.lookup t index.hosts_by_scope)
unfolding remove_scopes contains
lookup-remove_scopes [] index t = refl
lookup-remove_scopes (s ∷ scopes) index t =
    lookup-remove_scopes scopes (remove_host_auth_reference_by_scope index s) t
    ∙ ground (arith, lookup-removed index s t)

contains-host_scopes :
    (hosts : Hosts) (vault_id : Text) (t : Scope)
    → contains (host_scopes hosts vault_id) t
      ≡ (list_beq t.0 vault_id && is_some (Assoc.lookup t hosts))
unfolding host_scopes retain contains Assoc.lookup
contains-host_scopes [] vault_id t = ground arith
contains-host_scopes ((s, entry) ∷ hosts) vault_id t = elim (Bool-cases (list_beq s.0 vault_id)) [
  | inl e ↦ rw e (
      ground (
        arith,
        contains-host_scopes hosts vault_id t,
        list_beq_iff s.0 vault_id,
        list_beq_iff t.0 vault_id,
        list_beq_iff s.0 t.0,
      ))
  | inr e ↦ rw e (
      ground (
        arith,
        contains-host_scopes hosts vault_id t,
        list_beq_iff s.0 vault_id,
        list_beq_iff t.0 vault_id,
        list_beq_iff s.0 t.0,
      ))
]

pub lookup-remove_vault :
    (index : AuthReferenceIndex) (vault_id : Text) (t : Scope)
    → Assoc.lookup t (remove_vault_auth_reference_index index vault_id).hosts_by_scope
      ≡ (if list_beq t.0 vault_id then none else Assoc.lookup t index.hosts_by_scope)
unfolding remove_vault_auth_reference_index
lookup-remove_vault index vault_id t =
    lookup-remove_scopes (host_scopes index.hosts_by_scope vault_id) index t
    ∙ ground (arith, contains-host_scopes index.hosts_by_scope vault_id t)

-- Without a vault's hosts, whether they are locked away or deleted: nothing of that vault is listed
-- any more under any key or credential, and the hosts of other vaults are listed as before.
pub remove_vault_lem :
    (index : AuthReferenceIndex) (vault_id : Text) (p : HostReferenceSummary → Bool)
    (vault id host_id : Text)
    → IsIndexed index
    → let after = remove_vault_auth_reference_index index vault_id in
      IsIndexed after
      × (listed p after.hosts_for_keys vault id host_id
          ≡ (not (list_beq vault vault_id) && listed p index.hosts_for_keys vault id host_id))
      × (listed p after.hosts_for_credentials vault id host_id ≡ (
          not (list_beq vault vault_id) && listed p index.hosts_for_credentials vault id host_id))
remove_vault_lem index vault_id p vault id host_id i =
    let after = remove_vault-IsIndexed index vault_id i in
    let found = lookup-remove_vault index vault_id (vault, host_id) in
    (
      after,
      after.keys p vault id host_id ∙ ground (arith, found, i.keys p vault id host_id),
      after.credentials p vault id host_id
          ∙ ground (arith, found, i.credentials p vault id host_id),
    )

pub lookup-upsert :
    (to_lowercase : Text → Text) (index : AuthReferenceIndex) (vault_id vault_name : Text)
    (host : HostAuthSummary) (t : Scope)
    → Assoc.lookup t
        (upsert_host_auth_reference_summary to_lowercase index vault_id vault_name
          host).hosts_by_scope
      ≡ (if same_scope (vault_id, host.host_id) t
          then some (index_entry to_lowercase vault_id vault_name host)
          else Assoc.lookup t index.hosts_by_scope)
unfolding upsert_host_auth_reference_summary add_entry
lookup-upsert to_lowercase index vault_id vault_name host t =
    lookup-insert (vault_id, host.host_id) t _ _
    ∙ ground (arith, lookup-removed index (vault_id, host.host_id) t)

-- The reference to a host.
abbrev pub reference_to : Text → Text → HostAuthSummary → HostReferenceSummary
reference_to vault_id vault_name host = record {
  vault_id = vault_id;
  vault_name = vault_name;
  host_id = host.host_id;
  host_label = host.host_label;
}

indexed_keys :
    (to_lowercase : Text → Text) (p : HostReferenceSummary → Bool) (vault_id vault_name : Text)
    (host : HostAuthSummary) (id : Text)
    → uses (λ entry. entry.key_ids) p (some (index_entry to_lowercase vault_id vault_name host)) id
      ≡ (any (names_key id) host.auth_order && p (reference_to vault_id vault_name host))
unfolding index_entry
indexed_keys to_lowercase p vault_id vault_name host id =
    ap (λ b. b && p (reference_to vault_id vault_name host))
      (collect_host_auth_reference_ids_lem host.auth_order id).0

indexed_credentials :
    (to_lowercase : Text → Text) (p : HostReferenceSummary → Bool) (vault_id vault_name : Text)
    (host : HostAuthSummary) (id : Text)
    → uses
        (λ entry. entry.credential_ids)
        p
        (some (index_entry to_lowercase vault_id vault_name host))
        id
      ≡ (any (names_credential id) host.auth_order && p (reference_to vault_id vault_name host))
unfolding index_entry
indexed_credentials to_lowercase p vault_id vault_name host id =
    ap (λ b. b && p (reference_to vault_id vault_name host))
      (collect_host_auth_reference_ids_lem host.auth_order id).1

-- A saved host is listed under exactly the keys and the credentials that its ways to log in name,
-- with its present label and vault name, whatever it was listed under before; every other host is
-- listed as before.
pub upsert_lem :
    (to_lowercase : Text → Text) (index : AuthReferenceIndex) (vault_id vault_name : Text)
    (host : HostAuthSummary) (p : HostReferenceSummary → Bool) (vault id host_id : Text)
    → IsIndexed index
    → let after = upsert_host_auth_reference_summary to_lowercase index vault_id vault_name host in
      IsIndexed after
      × (listed p after.hosts_for_keys vault id host_id ≡ (
          if same_scope (vault_id, host.host_id) (vault, host_id)
          then any (names_key id) host.auth_order && p (reference_to vault_id vault_name host)
          else listed p index.hosts_for_keys vault id host_id))
      × (listed p after.hosts_for_credentials vault id host_id ≡ (
          if same_scope (vault_id, host.host_id) (vault, host_id)
          then any (names_credential id) host.auth_order
            && p (reference_to vault_id vault_name host)
          else listed p index.hosts_for_credentials vault id host_id))
upsert_lem to_lowercase index vault_id vault_name host p vault id host_id i =
    let after = upsert-IsIndexed to_lowercase index vault_id vault_name host i in
    let found = lookup-upsert to_lowercase index vault_id vault_name host (vault, host_id) in
    (
      after,
      after.keys p vault id host_id
          ∙ ground (
            arith,
            found,
            i.keys p vault id host_id,
            indexed_keys to_lowercase p vault_id vault_name host id,
          ),
      after.credentials p vault id host_id
          ∙ ground (
            arith,
            found,
            i.credentials p vault id host_id,
            indexed_credentials to_lowercase p vault_id vault_name host id,
          ),
    )
