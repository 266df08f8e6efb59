-- ===== src/Core/AuthIndex/Indexed.antt =====
-- The index of crates/seance-core/src/lib.rs against the hosts that it was made from.
use seance.Prelude.{
  Bool, true, false, ◌&&◌, Option, none, some, List, if◌then◌else◌, All, Text, nat_eq, list_eq,
  pair_eq, ◌≡◌, refl, sym, ap, ◌∙◌, inl, inr, arith, Option-cases, Bool-cases,
}
use seance.Prelude.Assoc
use seance.Prelude.Assoc.{lookup-insert, lookup-remove, All-insert, All-remove}
use seance.Prelude.Member.{contains}
use seance.Core.AuthIndex.{
  Scope, HostReferenceSummary, IndexedHostAuthReferences, AuthReferenceIndex, drop_hosts,
  drop_entry, remove_host_auth_reference_by_scope, push_refs, add_entry,
}
use seance.Core.AuthIndex.Refs.{
  RefMap, same_scope, same_scope-eq, listed, listed-drop_hosts, listed-push_refs,
}

abbrev pub Hosts : Type 0
Hosts = List (Scope × IndexedHostAuthReferences)

-- Whether an indexed host uses an id and passes a test.
abbrev pub uses :
    (IndexedHostAuthReferences → List Text)
    → (HostReferenceSummary → Bool)
    → Option IndexedHostAuthReferences
    → Text
    → Bool
uses ids p none id = false
uses ids p (some entry) id = contains (ids entry) id && p entry.host_reference

-- Under each id stand the hosts that use it, whatever they are tested for, and no others.
abbrev pub Matches : (IndexedHostAuthReferences → List Text) → RefMap → Hosts → Type 0
Matches ids refs hosts =
    (p : HostReferenceSummary → Bool) (vault_id id host_id : Text)
    → listed p refs vault_id id host_id ≡ uses ids p (Assoc.lookup (vault_id, host_id) hosts) id

abbrev pub IsScoped : Scope × IndexedHostAuthReferences → Type 0
IsScoped entry =
    (entry.1.host_reference.vault_id ≡ entry.0.0) × (entry.1.host_reference.host_id ≡ entry.0.1)

pub record IsIndexed (index : AuthReferenceIndex) : Type 0 where
  pub scoped : All IsScoped index.hosts_by_scope
  pub keys : Matches (λ entry. entry.key_ids) index.hosts_for_keys index.hosts_by_scope
  pub credentials :
      Matches (λ entry. entry.credential_ids) index.hosts_for_credentials index.hosts_by_scope

module _ (ids : IndexedHostAuthReferences → List Text) where
  Matches-drop_hosts :
      (refs : RefMap) (hosts : Hosts) (v gone : Text) (entry : IndexedHostAuthReferences)
      → Matches ids refs hosts
      → Assoc.lookup (v, gone) hosts ≡ some entry
      → Matches ids (drop_hosts refs v gone (ids entry)) (Assoc.remove (v, gone) hosts)
  Matches-drop_hosts refs hosts v gone entry m e p w id h =
      listed-drop_hosts p refs v gone (ids entry) w id h
      ∙ (elim (Bool-cases (same_scope (v, gone) (w, h))) [
        | inl same ↦
            let there : Assoc.lookup (w, h) hosts ≡ some entry =
              ap (λ s. Assoc.lookup s hosts) (sym (same_scope-eq (v, gone) (w, h) same)) ∙ e in
            ground (arith, m p w id h, lookup-remove (v, gone) (w, h) hosts)
        | inr other ↦ ground (arith, m p w id h, lookup-remove (v, gone) (w, h) hosts)
      ])

  Matches-push_refs :
      (to_lowercase : Text → Text) (refs : RefMap) (hosts : Hosts) (v : Text)
      (entry : IndexedHostAuthReferences)
      → let new_host = entry.host_reference.host_id in
        Matches ids refs hosts
        → Assoc.lookup (v, new_host) hosts ≡ none
        → Matches ids
            (push_refs to_lowercase refs v (ids entry) entry.host_reference)
            (Assoc.insert (v, new_host) entry hosts)
  Matches-push_refs to_lowercase refs hosts v entry m e p w id h =
      let new_host = entry.host_reference.host_id in
      listed-push_refs to_lowercase p refs v (ids entry) entry.host_reference w id h
      ∙ (elim (Bool-cases (same_scope (v, new_host) (w, h))) [
        | inl same ↦
            let absent : Assoc.lookup (w, h) hosts ≡ none =
              ap (λ s. Assoc.lookup s hosts) (sym (same_scope-eq (v, new_host) (w, h) same)) ∙ e in
            ground (arith, m p w id h, lookup-insert (v, new_host) (w, h) entry hosts)
        | inr other ↦ ground (arith, m p w id h, lookup-insert (v, new_host) (w, h) entry hosts)
      ])

removed-none :
    (index : AuthReferenceIndex) (s : Scope)
    → Assoc.lookup s index.hosts_by_scope ≡ none
    → remove_host_auth_reference_by_scope index s ≡ index
unfolding remove_host_auth_reference_by_scope
removed-none index s e = rw (remove_host_auth_reference_by_scope, e) refl

removed-some :
    (index : AuthReferenceIndex) (s : Scope) (entry : IndexedHostAuthReferences)
    → Assoc.lookup s index.hosts_by_scope ≡ some entry
    → remove_host_auth_reference_by_scope index s ≡ drop_entry index s entry
unfolding remove_host_auth_reference_by_scope
removed-some index s entry e = rw (remove_host_auth_reference_by_scope, e) refl

drop_entry-IsIndexed :
    (index : AuthReferenceIndex) (s : Scope) (entry : IndexedHostAuthReferences)
    → IsIndexed index
    → Assoc.lookup s index.hosts_by_scope ≡ some entry
    → IsIndexed (drop_entry index s entry)
unfolding drop_entry
drop_entry-IsIndexed index (v, h) entry i e = record {
  scoped = All-remove _ (v, h) index.hosts_by_scope i.scoped;
  keys =
      Matches-drop_hosts (λ entry. entry.key_ids) index.hosts_for_keys index.hosts_by_scope v h
        entry i.keys e;
  credentials =
      Matches-drop_hosts (λ entry. entry.credential_ids) index.hosts_for_credentials
        index.hosts_by_scope v h entry i.credentials e;
}

pub removed-IsIndexed :
    (index : AuthReferenceIndex) (s : Scope)
    → IsIndexed index
    → IsIndexed (remove_host_auth_reference_by_scope index s)
removed-IsIndexed index s i = elim (Option-cases (Assoc.lookup s index.hosts_by_scope)) [
  | inl e ↦ rw (removed-none index s e) i
  | inr (entry, e) ↦ rw (removed-some index s entry e) (drop_entry-IsIndexed index s entry i e)
]

-- A removed host is gone, and every other one is still there.
pub lookup-removed :
    (index : AuthReferenceIndex) (s t : Scope)
    → Assoc.lookup t (remove_host_auth_reference_by_scope index s).hosts_by_scope
      ≡ (if same_scope s t then none else Assoc.lookup t index.hosts_by_scope)
unfolding drop_entry
lookup-removed index s t = elim (Option-cases (Assoc.lookup s index.hosts_by_scope)) [
  | inl e ↦
      let moved : same_scope s t ≡ true → Assoc.lookup t index.hosts_by_scope ≡ none =
        λ same. ap (λ u. Assoc.lookup u index.hosts_by_scope) (sym (same_scope-eq s t same)) ∙ e in
      rw (removed-none index s e) (ground (arith, moved))
  | inr (entry, e) ↦ rw (removed-some index s entry e) (lookup-remove s t index.hosts_by_scope)
]

pub add_entry-IsIndexed :
    (to_lowercase : Text → Text) (index : AuthReferenceIndex) (entry : IndexedHostAuthReferences)
    → let scope : Scope = (entry.host_reference.vault_id, entry.host_reference.host_id) in
      IsIndexed index
      → Assoc.lookup scope index.hosts_by_scope ≡ none
      → IsIndexed (add_entry to_lowercase index scope entry)
unfolding add_entry
add_entry-IsIndexed to_lowercase index entry i e =
    let v = entry.host_reference.vault_id in
    record {
      scoped =
          All-insert _ (v, entry.host_reference.host_id) entry index.hosts_by_scope (refl, refl)
            i.scoped;
      keys =
          Matches-push_refs (λ entry. entry.key_ids) to_lowercase index.hosts_for_keys
            index.hosts_by_scope v entry i.keys e;
      credentials =
          Matches-push_refs (λ entry. entry.credential_ids) to_lowercase index.hosts_for_credentials
            index.hosts_by_scope v entry i.credentials e;
    }
