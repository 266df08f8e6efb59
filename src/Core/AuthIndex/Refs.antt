-- ===== src/Core/AuthIndex/Refs.antt =====
-- The two maps of references in crates/seance-core/src/lib.rs, as sets: `listed p` is whether a host
-- that passes the test `p` stands in the list of a key or a credential.
use seance.Prelude.{
  Bool, true, false, not, ◌&&◌, ◌||◌, none, some, List, [], ◌∷◌, ◌++◌, if◌then◌else◌, is_empty,
  Text, list_beq, list_beq_iff, nat_eq, list_eq, pair_eq, ◌≡◌, refl, sym, ap, ◌∙◌, inl, inr, arith,
  Option-cases, Bool-cases,
}
use seance.Prelude.Assoc
use seance.Prelude.Assoc.{lookup-insert, lookup-remove}
use seance.Prelude.Member.{contains}
use seance.Prelude.SortBy.{any, retain, any-append, any-retain, any-sort_by}
use seance.Core.AuthIndex.{
  Scope, HostReferenceSummary, refs_at, drop_host, drop_hosts, sort_host_references, push_ref,
  push_refs,
}

abbrev pub RefMap : Type 0
RefMap = List (Scope × List HostReferenceSummary)

abbrev pub same_scope : Scope → Scope → Bool
same_scope s t = list_beq s.0 t.0 && list_beq s.1 t.1

pub listed : (HostReferenceSummary → Bool) → RefMap → Text → Text → Text → Bool
listed p refs vault_id id host_id =
    any (λ (host : HostReferenceSummary). list_beq host.host_id host_id && p host)
      (refs_at (vault_id, id) refs)

refs_at-insert :
    (s t : Scope) (hosts : List HostReferenceSummary) (refs : RefMap)
    → refs_at t (Assoc.insert s hosts refs) ≡ (if same_scope s t then hosts else refs_at t refs)
unfolding refs_at
refs_at-insert s t hosts refs = rw lookup-insert (ground arith)

refs_at-remove :
    (s t : Scope) (refs : RefMap)
    → refs_at t (Assoc.remove s refs) ≡ (if same_scope s t then [] else refs_at t refs)
unfolding refs_at
refs_at-remove s t refs = rw lookup-remove (ground arith)

any_empty :
    (p : HostReferenceSummary → Bool) (hosts : List HostReferenceSummary)
    → is_empty hosts ≡ true
    → any p hosts ≡ false
unfolding any
any_empty p [] h = refl
any_empty p (x ∷ xs) h = absurd (cc)

pub same_scope_refl : (s : Scope) → same_scope s s ≡ true
same_scope_refl (a, b) = ground (arith, list_beq_iff a a, list_beq_iff b b)

abbrev kept : Text → List HostReferenceSummary → List HostReferenceSummary
kept host_id = retain (λ (host : HostReferenceSummary). not (list_beq host.host_id host_id))

empty_nil : (hosts : List HostReferenceSummary) → is_empty hosts ≡ true → hosts ≡ []
empty_nil [] h = refl
empty_nil (x ∷ xs) h = absurd (cc)

refs_at-none : (s : Scope) (refs : RefMap) → Assoc.lookup s refs ≡ none → refs_at s refs ≡ []
unfolding refs_at
refs_at-none s refs h = rw h refl

refs_at-some :
    (s : Scope) (refs : RefMap) (hosts : List HostReferenceSummary)
    → Assoc.lookup s refs ≡ some hosts
    → refs_at s refs ≡ hosts
unfolding refs_at
refs_at-some s refs hosts h = rw h refl

drop_host-none :
    (s : Scope) (refs : RefMap) (host_id : Text)
    → Assoc.lookup s refs ≡ none
    → drop_host refs s host_id ≡ refs
unfolding drop_host
drop_host-none s refs host_id h = rw (drop_host, h) refl

drop_host-some :
    (s : Scope) (refs : RefMap) (host_id : Text) (hosts : List HostReferenceSummary)
    → Assoc.lookup s refs ≡ some hosts
    → drop_host refs s host_id ≡ (
        if is_empty (kept host_id hosts)
        then Assoc.remove s refs
        else Assoc.insert s (kept host_id hosts) refs)
unfolding drop_host
drop_host-some s refs host_id hosts h = rw (drop_host, h) refl

pub same_scope-eq : (s t : Scope) → same_scope s t ≡ true → s ≡ t
same_scope-eq (a, b) (c, d) h = ground (arith, list_beq_iff a c, list_beq_iff b d)

kept-nil : (host_id : Text) → kept host_id [] ≡ []
unfolding retain
kept-nil host_id = refl

nothing_kept :
    (s t : Scope) (refs : RefMap) (host_id : Text)
    → Assoc.lookup s refs ≡ none
    → refs_at t refs ≡ (if same_scope s t then kept host_id [] else refs_at t refs)
nothing_kept s t refs host_id e = elim (Bool-cases (same_scope s t)) [
  | inl same ↦ rw same (
      ap (λ u. refs_at u refs) (sym (same_scope-eq s t same))
      ∙ refs_at-none s refs e
      ∙ sym (kept-nil host_id))
  | inr other ↦ rw other refl
]

refs_at-drop_host :
    (s t : Scope) (refs : RefMap) (host_id : Text)
    → refs_at t (drop_host refs s host_id)
      ≡ (if same_scope s t then kept host_id (refs_at s refs) else refs_at t refs)
refs_at-drop_host s t refs host_id = elim (Option-cases (Assoc.lookup s refs)) [
  | inl e ↦
      rw (drop_host-none s refs host_id e, refs_at-none s refs e) (nothing_kept s t refs host_id e)
  | inr (hosts, e) ↦
      rw (drop_host-some s refs host_id hosts e, refs_at-some s refs hosts e)
        (ground (
          arith,
          refs_at-insert s t (kept host_id hosts) refs,
          refs_at-remove s t refs,
          empty_nil (kept host_id hosts),
        ))
]

any_ext :
    (p q : HostReferenceSummary → Bool) (hosts : List HostReferenceSummary)
    → ((host : HostReferenceSummary) → p host ≡ q host)
    → any p hosts ≡ any q hosts
unfolding any
any_ext p q [] h = refl
any_ext p q (x ∷ xs) h = ground (arith, h x, any_ext p q xs h)

any_none :
    (p : HostReferenceSummary → Bool) (hosts : List HostReferenceSummary)
    → ((host : HostReferenceSummary) → p host ≡ false)
    → any p hosts ≡ false
unfolding any
any_none p [] h = refl
any_none p (x ∷ xs) h = ground (arith, h x, any_none p xs h)

any-kept :
    (p : HostReferenceSummary → Bool) (gone host_id : Text) (hosts : List HostReferenceSummary)
    → any
        (λ (host : HostReferenceSummary). list_beq host.host_id host_id && p host)
        (kept gone hosts)
      ≡ (not (list_beq gone host_id)
          && any (λ (host : HostReferenceSummary). list_beq host.host_id host_id && p host) hosts)
any-kept p gone host_id hosts = elim (Bool-cases (list_beq gone host_id)) [
  | inl same ↦ rw same (
      any-retain _ _ hosts
      ∙ any_none _ hosts (λ host. ground (
        arith,
        list_beq_iff gone host_id,
        list_beq_iff host.host_id gone,
        list_beq_iff host.host_id host_id,
      )))
  | inr other ↦ rw other (
      any-retain _ _ hosts
      ∙ any_ext _ _ hosts (λ host. ground (
        arith,
        list_beq_iff gone host_id,
        list_beq_iff host.host_id gone,
        list_beq_iff host.host_id host_id,
      )))
]

listed-drop_host :
    (p : HostReferenceSummary → Bool) (refs : RefMap) (v k gone w id host_id : Text)
    → listed p (drop_host refs (v, k) gone) w id host_id
      ≡ (not (list_beq v w && list_beq k id && list_beq gone host_id) && listed p refs w id host_id)
unfolding listed
listed-drop_host p refs v k gone w id host_id =
    rw (refs_at-drop_host (v, k) (w, id) refs gone) (elim (Bool-cases (same_scope (v, k) (w, id))) [
      | inl same ↦
          let moved : refs_at (v, k) refs ≡ refs_at (w, id) refs =
            ap (λ s. refs_at s refs) (same_scope-eq (v, k) (w, id) same) in
          rw (same, moved) (any-kept p gone host_id (refs_at (w, id) refs) ∙ ground arith)
      | inr other ↦ rw other (ground arith)
    ])

-- A removed host is listed under none of the ids it was removed from; all else stays.
pub listed-drop_hosts :
    (p : HostReferenceSummary → Bool) (refs : RefMap) (v gone : Text) (ids : List Text)
    (w id host_id : Text)
    → listed p (drop_hosts refs v gone ids) w id host_id ≡ (
        not (list_beq v w && contains ids id && list_beq gone host_id)
        && listed p refs w id host_id)
unfolding drop_hosts contains
listed-drop_hosts p refs v gone [] w id host_id = ground arith
listed-drop_hosts p refs v gone (k ∷ ks) w id host_id =
    listed-drop_hosts p (drop_host refs (v, k) gone) v gone ks w id host_id
    ∙ ground (arith, listed-drop_host p refs v k gone w id host_id)

module _ (to_lowercase : Text → Text) where
  any-pushed :
      (p : HostReferenceSummary → Bool) (refs : RefMap) (s : Scope)
      (reference : HostReferenceSummary)
      → any p (sort_host_references to_lowercase (refs_at s refs ++ reference ∷ []))
        ≡ (any p (refs_at s refs) || p reference)
  unfolding sort_host_references
  any-pushed p refs s reference =
      any-sort_by _ p _
      ∙ any-append p (refs_at s refs) (reference ∷ [])
      ∙ (unfold any in ground arith)

  listed-push_ref :
      (p : HostReferenceSummary → Bool) (refs : RefMap) (v k : Text)
      (reference : HostReferenceSummary) (w id host_id : Text)
      → listed p (push_ref to_lowercase refs (v, k) reference) w id host_id ≡ (
          (list_beq v w && list_beq k id && list_beq reference.host_id host_id && p reference)
          || listed p refs w id host_id)
  unfolding listed push_ref
  listed-push_ref p refs v k reference w id host_id =
      rw (refs_at-insert (v, k) (w, id) _ refs) (elim (Bool-cases (same_scope (v, k) (w, id))) [
        | inl same ↦
            let moved : refs_at (v, k) refs ≡ refs_at (w, id) refs =
              ap (λ s. refs_at s refs) (same_scope-eq (v, k) (w, id) same) in
            rw same (any-pushed _ refs (v, k) reference ∙ (rw moved (ground arith)))
        | inr other ↦ rw other (ground arith)
      ])

  -- A reference is listed under the ids it was pushed to, and all else stays.
  pub listed-push_refs :
      (p : HostReferenceSummary → Bool) (refs : RefMap) (v : Text) (ids : List Text)
      (reference : HostReferenceSummary) (w id host_id : Text)
      → listed p (push_refs to_lowercase refs v ids reference) w id host_id ≡ (
          (list_beq v w && contains ids id && list_beq reference.host_id host_id && p reference)
          || listed p refs w id host_id)
  unfolding push_refs contains
  listed-push_refs p refs v [] reference w id host_id = ground arith
  listed-push_refs p refs v (k ∷ ks) reference w id host_id =
      listed-push_refs p (push_ref to_lowercase refs (v, k) reference) v ks reference w id host_id
      ∙ ground (arith, listed-push_ref p refs v k reference w id host_id)

-- Nothing is listed in an empty map.
pub refs_at-nil :
    (p : HostReferenceSummary → Bool) (vault_id id host_id : Text)
    → listed p [] vault_id id host_id ≡ false
unfolding listed refs_at any Assoc.lookup
refs_at-nil p vault_id id host_id = refl
