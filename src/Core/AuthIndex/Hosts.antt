-- ===== src/Core/AuthIndex/Hosts.antt =====
-- Which hosts stand in the index of crates/seance-core/src/lib.rs after a vault's hosts are read again.
use seance.Prelude.{
  Bool, true, false, ◌||◌, if◌then◌else◌, inl, inr, Bool-cases, ap, Option, none, some, List, [],
  ◌∷◌, is_some, Text, Result, ok, err, list_beq, list_beq_iff, nat_eq, list_eq, pair_eq, ◌≡◌, refl,
  ◌∙◌, arith,
}
use seance.Prelude.Assoc
use seance.Prelude.SortBy.{any}
use seance.Core.AuthIndex.{
  HostAuthSummary, AuthReferenceIndex, upsert_host_auth_reference_summary, upsert_all,
  rebuild_vault_auth_reference_index,
}
use seance.Core.AuthIndex.Effects.{lookup-remove_vault, lookup-upsert}

abbrev pub in_index : AuthReferenceIndex → Text → Text → Bool
in_index index vault_id host_id = is_some (Assoc.lookup (vault_id, host_id) index.hosts_by_scope)

upsert_all-others :
    (to_lowercase : Text → Text) (hosts : List HostAuthSummary) (index : AuthReferenceIndex)
    (vault_id vault_name vault host_id : Text)
    → list_beq vault vault_id ≡ false
    → in_index (upsert_all to_lowercase index vault_id vault_name hosts) vault host_id
      ≡ in_index index vault host_id
unfolding upsert_all
upsert_all-others to_lowercase [] index vault_id vault_name vault host_id other = refl
upsert_all-others to_lowercase (host ∷ hosts) index vault_id vault_name vault host_id other =
    upsert_all-others to_lowercase hosts
      (upsert_host_auth_reference_summary to_lowercase index vault_id vault_name host) vault_id
      vault_name vault host_id other
    ∙ ground (
      arith,
      lookup-upsert to_lowercase index vault_id vault_name host (vault, host_id),
      list_beq_iff vault vault_id,
      list_beq_iff vault_id vault,
    )

pub rebuild-others :
    (to_lowercase : Text → Text) (index : AuthReferenceIndex) (vault_id vault_name : Text)
    (hosts : Option (Result Text (List HostAuthSummary))) (vault host_id : Text)
    → list_beq vault vault_id ≡ false
    → in_index
        (rebuild_vault_auth_reference_index to_lowercase index vault_id vault_name hosts).0
        vault
        host_id
      ≡ in_index index vault host_id
unfolding rebuild_vault_auth_reference_index
rebuild-others to_lowercase index vault_id vault_name none vault host_id other =
    ground (arith, lookup-remove_vault index vault_id (vault, host_id))
rebuild-others to_lowercase index vault_id vault_name (some (err e)) vault host_id other =
    ground (arith, lookup-remove_vault index vault_id (vault, host_id))
rebuild-others to_lowercase index vault_id vault_name (some (ok hosts)) vault host_id other =
    upsert_all-others to_lowercase hosts _ vault_id vault_name vault host_id other
    ∙ ground (arith, lookup-remove_vault index vault_id (vault, host_id))

pub rebuild-none :
    (to_lowercase : Text → Text) (index : AuthReferenceIndex)
    (vault_id vault_name vault host_id : Text)
    → list_beq vault vault_id ≡ true
    → in_index
        (rebuild_vault_auth_reference_index to_lowercase index vault_id vault_name none).0
        vault
        host_id
      ≡ false
unfolding rebuild_vault_auth_reference_index
rebuild-none to_lowercase index vault_id vault_name vault host_id own =
    ground (arith, lookup-remove_vault index vault_id (vault, host_id))

-- Whether a host with the id is one of them.
abbrev pub among : List HostAuthSummary → Text → Bool
among hosts host_id = any (λ (host : HostAuthSummary). list_beq host.host_id host_id) hosts

upsert_all-own :
    (to_lowercase : Text → Text) (hosts : List HostAuthSummary) (index : AuthReferenceIndex)
    (vault_id vault_name host_id : Text)
    → in_index (upsert_all to_lowercase index vault_id vault_name hosts) vault_id host_id
      ≡ (among hosts host_id || in_index index vault_id host_id)
unfolding upsert_all any
upsert_all-own to_lowercase [] index vault_id vault_name host_id = refl
upsert_all-own to_lowercase (host ∷ hosts) index vault_id vault_name host_id =
    upsert_all-own to_lowercase hosts
      (upsert_host_auth_reference_summary to_lowercase index vault_id vault_name host) vault_id
      vault_name host_id
    ∙ ground (
      arith,
      lookup-upsert to_lowercase index vault_id vault_name host (vault_id, host_id),
      list_beq_iff vault_id vault_id,
    )

-- What a vault answers, as a set of hosts.
abbrev pub answered_hosts : Option (Result Text (List HostAuthSummary)) → Text → Bool
answered_hosts none host_id = false
answered_hosts (some (err e)) host_id = false
answered_hosts (some (ok hosts)) host_id = among hosts host_id

rebuild-own_hosts :
    (to_lowercase : Text → Text) (index : AuthReferenceIndex) (vault_id vault_name : Text)
    (hosts : Option (Result Text (List HostAuthSummary))) (host_id : Text)
    → in_index
        (rebuild_vault_auth_reference_index to_lowercase index vault_id vault_name hosts).0
        vault_id
        host_id
      ≡ answered_hosts hosts host_id
unfolding rebuild_vault_auth_reference_index
rebuild-own_hosts to_lowercase index vault_id vault_name none host_id =
    ground (
      arith,
      lookup-remove_vault index vault_id (vault_id, host_id),
      list_beq_iff vault_id vault_id,
    )
rebuild-own_hosts to_lowercase index vault_id vault_name (some (err e)) host_id =
    ground (
      arith,
      lookup-remove_vault index vault_id (vault_id, host_id),
      list_beq_iff vault_id vault_id,
    )
rebuild-own_hosts to_lowercase index vault_id vault_name (some (ok hosts)) host_id =
    upsert_all-own to_lowercase hosts _ vault_id vault_name host_id
    ∙ ground (
      arith,
      lookup-remove_vault index vault_id (vault_id, host_id),
      list_beq_iff vault_id vault_id,
    )

pub rebuild-in_index :
    (to_lowercase : Text → Text) (index : AuthReferenceIndex) (vault_id vault_name : Text)
    (hosts : Option (Result Text (List HostAuthSummary))) (vault host_id : Text)
    → in_index
        (rebuild_vault_auth_reference_index to_lowercase index vault_id vault_name hosts).0
        vault
        host_id
      ≡ (if list_beq vault vault_id
          then answered_hosts hosts host_id
          else in_index index vault host_id)
rebuild-in_index to_lowercase index vault_id vault_name hosts vault host_id =
    elim (Bool-cases (list_beq vault vault_id)) [
      | inl own ↦
          let same : vault ≡ vault_id = (list_beq_iff vault vault_id).0 own in
          let rebuilt : AuthReferenceIndex =
            (rebuild_vault_auth_reference_index to_lowercase index vault_id vault_name hosts).0 in
          rw own (
            ap (λ id. in_index rebuilt id host_id) same
            ∙ rebuild-own_hosts to_lowercase index vault_id vault_name hosts host_id)
      | inr other ↦
          rw other (rebuild-others to_lowercase index vault_id vault_name hosts vault host_id other)
    ]
