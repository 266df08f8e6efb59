-- ===== src/Vault/Model/Kinds.antt =====
-- The texts by which crates/seance-vault/src/model.rs writes kinds and states into the database.
use seance.Prelude.{some, ◌≡◌, refl, list_beq, nat_eq, list_eq}
use seance.Vault.Model.{
  RecordKind, host_kind, password_credential_kind, private_key_kind, snippet_kind,
  port_forward_kind, kind_as_str, kind_from_str, RecordSyncState, pending, synced,
  sync_state_as_str, sync_state_from_str,
}

-- The text that a kind is stored as is read back as that kind.
pub kind_from_str-kind_as_str : (k : RecordKind) → kind_from_str (kind_as_str k) ≡ some k
unfolding kind_from_str kind_as_str list_beq
kind_from_str-kind_as_str host_kind = refl
kind_from_str-kind_as_str password_credential_kind = refl
kind_from_str-kind_as_str private_key_kind = refl
kind_from_str-kind_as_str snippet_kind = refl
kind_from_str-kind_as_str port_forward_kind = refl

-- The same for the state of a record.
pub sync_state_from_str-sync_state_as_str :
    (s : RecordSyncState) → sync_state_from_str (sync_state_as_str s) ≡ some s
unfolding sync_state_from_str sync_state_as_str list_beq
sync_state_from_str-sync_state_as_str pending = refl
sync_state_from_str-sync_state_as_str synced = refl
