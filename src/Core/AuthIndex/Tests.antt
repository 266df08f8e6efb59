-- ===== src/Core/AuthIndex/Tests.antt =====
-- The index of crates/seance-core/src/lib.rs on concrete hosts.
use seance.Prelude.{
  Bool, true, not, ◌&&◌, some, List, [], ◌∷◌, if◌then◌else◌, Text, codes, list_beq, nat_eq, list_eq,
  ◌≡◌,
}
use seance.Prelude.SortBy.{any}
use seance.Core.AuthIndex.{
  HostAuthRef, password, private_key, HostAuthSummary, HostReferenceSummary,
  remove_vault_auth_reference_index, upsert_host_auth_reference_summary,
}
use seance.Core.AuthIndex.Refs.{same_scope, listed}
use seance.Core.AuthIndex.Indexed.{IsIndexed}
use seance.Core.AuthIndex.Collect.{names_key, names_credential}
use seance.Core.AuthIndex.Calls.{IndexCall, upserts, removes_host, empty_index, run, run-IsIndexed}
use seance.Core.AuthIndex.Effects.{reference_to, remove_vault_lem, upsert_lem}

abbrev same : Text → Text
same t = t

abbrev auth : List HostAuthRef
auth = private_key (codes "k1") (some (codes "c1")) ∷ password (codes "c2") ∷ []

abbrev host : HostAuthSummary
host = record { host_id = codes "h1"; host_label = codes "web"; auth_order = auth }

abbrev calls : List IndexCall
calls =
    upserts (codes "v1") (codes "Home") host
    ∷ upserts (codes "v2") (codes "Work") host
    ∷ removes_host (codes "v2") (codes "h1")
    ∷ []

abbrev every : HostReferenceSummary → Bool
every r = true

run-IsIndexed_example : IsIndexed (run same empty_index calls)
run-IsIndexed_example = run-IsIndexed same calls

upsert_lem_example :
    let index = run same empty_index calls in
    let after = upsert_host_auth_reference_summary same index (codes "v1") (codes "Home") host in
    IsIndexed after
    × (listed every after.hosts_for_keys (codes "v1") (codes "k1") (codes "h1") ≡ (
        if same_scope (codes "v1", codes "h1") (codes "v1", codes "h1")
        then any (names_key (codes "k1")) auth
          && every (reference_to (codes "v1") (codes "Home") host)
        else listed every index.hosts_for_keys (codes "v1") (codes "k1") (codes "h1")))
    × (listed every after.hosts_for_credentials (codes "v1") (codes "k1") (codes "h1") ≡ (
        if same_scope (codes "v1", codes "h1") (codes "v1", codes "h1")
        then any (names_credential (codes "k1")) auth
          && every (reference_to (codes "v1") (codes "Home") host)
        else listed every index.hosts_for_credentials (codes "v1") (codes "k1") (codes "h1")))
upsert_lem_example =
    upsert_lem same (run same empty_index calls) (codes "v1") (codes "Home") host every (codes "v1")
      (codes "k1") (codes "h1") (run-IsIndexed same calls)

remove_vault_lem_example :
    let index = run same empty_index calls in
    let after = remove_vault_auth_reference_index index (codes "v1") in
    IsIndexed after
    × (listed every after.hosts_for_keys (codes "v1") (codes "k1") (codes "h1") ≡ (
        not (list_beq (codes "v1") (codes "v1"))
        && listed every index.hosts_for_keys (codes "v1") (codes "k1") (codes "h1")))
    × (listed every after.hosts_for_credentials (codes "v1") (codes "k1") (codes "h1") ≡ (
        not (list_beq (codes "v1") (codes "v1"))
        && listed every index.hosts_for_credentials (codes "v1") (codes "k1") (codes "h1")))
remove_vault_lem_example =
    remove_vault_lem (run same empty_index calls) (codes "v1") every (codes "v1") (codes "k1")
      (codes "h1") (run-IsIndexed same calls)
