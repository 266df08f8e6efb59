-- ===== src/Core/AuthIndex/Collect.antt =====
-- The ids that collect_host_auth_reference_ids of crates/seance-core/src/lib.rs finds.
use seance.Prelude.{
  Bool, false, ◌||◌, Option, none, some, List, [], ◌∷◌, Text, list_beq, list_beq_iff, nat_eq,
  list_eq, ◌≡◌, refl, ap, ◌∙◌, sym, arith,
}
use seance.Prelude.Member.{contains}
use seance.Prelude.SortBy.{any, any-sort_by}
use seance.Core.AuthIndex.{
  HostAuthRef, password, private_key, insert_id, insert_optional, collect_ids, sort_ids,
  collect_host_auth_reference_ids,
}

-- Whether a way to log in names a key, and whether it names a credential.
abbrev pub names_key : Text → HostAuthRef → Bool
names_key id (password credential_id) = false
names_key id (private_key key_id passphrase_credential_id) = list_beq key_id id

abbrev pub names_credential : Text → HostAuthRef → Bool
names_credential id (password credential_id) = list_beq credential_id id
names_credential id (private_key key_id none) = false
names_credential id (private_key key_id (some credential_id)) = list_beq credential_id id

contains-any : (ids : List Text) (id : Text) → contains ids id ≡ any (λ x. list_beq x id) ids
unfolding contains any
contains-any [] id = refl
contains-any (x ∷ xs) id = ap (λ b. list_beq x id || b) (contains-any xs id)

contains-sort_ids : (ids : List Text) (id : Text) → contains (sort_ids ids) id ≡ contains ids id
unfolding sort_ids
contains-sort_ids ids id = contains-any _ id ∙ any-sort_by _ _ ids ∙ sym (contains-any ids id)

contains-insert_id :
    (ids : List Text) (new_id id : Text)
    → contains (insert_id ids new_id) id ≡ (list_beq new_id id || contains ids id)
unfolding insert_id contains
contains-insert_id ids new_id id = ground (arith, list_beq_iff new_id id)

contains-insert_optional :
    (ids : List Text) (key_id : Text) (o : Option Text) (id : Text)
    → contains (insert_optional ids o) id
      ≡ (names_credential id (private_key key_id o) || contains ids id)
unfolding insert_optional
contains-insert_optional ids key_id none id = refl
contains-insert_optional ids key_id (some new_id) id = contains-insert_id ids new_id id

collected_keys :
    (auth : List HostAuthRef) (keys credentials : List Text) (id : Text)
    → contains (collect_ids (keys, credentials) auth).0 id
      ≡ (any (names_key id) auth || contains keys id)
unfolding collect_ids any
collected_keys [] keys credentials id = refl
collected_keys (password c ∷ rest) keys credentials id =
    collected_keys rest keys (insert_id credentials c) id
collected_keys (private_key k o ∷ rest) keys credentials id =
    collected_keys rest (insert_id keys k) (insert_optional credentials o) id
    ∙ ground (arith, contains-insert_id keys k id)

collected_credentials :
    (auth : List HostAuthRef) (keys credentials : List Text) (id : Text)
    → contains (collect_ids (keys, credentials) auth).1 id
      ≡ (any (names_credential id) auth || contains credentials id)
unfolding collect_ids any
collected_credentials [] keys credentials id = refl
collected_credentials (password c ∷ rest) keys credentials id =
    collected_credentials rest keys (insert_id credentials c) id
    ∙ ground (arith, contains-insert_id credentials c id)
collected_credentials (private_key k o ∷ rest) keys credentials id =
    collected_credentials rest (insert_id keys k) (insert_optional credentials o) id
    ∙ ground (arith, contains-insert_optional credentials k o id)

no_ids : (id : Text) → contains [] id ≡ false
unfolding contains
no_ids id = refl

-- The collected key ids are those that some way to log in names, and so are the credential ids,
-- a credential for a key's passphrase among them.
pub collect_host_auth_reference_ids_lem :
    (auth_order : List HostAuthRef) (id : Text)
    → (contains (collect_host_auth_reference_ids auth_order).0 id ≡ any (names_key id) auth_order)
      × (contains (collect_host_auth_reference_ids auth_order).1 id
          ≡ any (names_credential id) auth_order)
unfolding collect_host_auth_reference_ids
collect_host_auth_reference_ids_lem auth_order id = (
  contains-sort_ids _ id ∙ collected_keys auth_order [] [] id ∙ ground (arith, no_ids id),
  contains-sort_ids _ id ∙ collected_credentials auth_order [] [] id ∙ ground (arith, no_ids id),
)
