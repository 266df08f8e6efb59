-- ===== src/Vault/Profiles.antt =====
-- What a vault keeps, in crates/seance-vault/src/model.rs: hosts, credentials, keys and port
-- forwards, with their summaries, and the identity that RecordIdentity of
-- crates/seance-vault/src/lib.rs gives them.
use seance.Prelude.{ℕ, Bool, Option, List, Text}
use seance.Prelude.Compare.{ℤ}
use seance.Vault.Model.{Bytes, HostAuthRef, HostAuthSummary}

pub record VaultHostProfile : Type 0 where
  pub id : Text
  pub label : Text
  pub hostname : Text
  pub port : ℕ
  pub username : Text
  pub notes : Option Text
  pub auth_order : List HostAuthRef

pub data PortForwardMode : Type 0 where
  local_mode remote_mode : PortForwardMode

pub record VaultPortForwardProfile : Type 0 where
  pub id : Text
  pub host_id : Text
  pub label : Text
  pub mode : PortForwardMode
  pub listen_address : Text
  pub listen_port : ℕ
  pub target_address : Text
  pub target_port : ℕ
  pub notes : Option Text

pub record VaultPasswordCredential : Type 0 where
  pub id : Text
  pub label : Text
  pub username_hint : Option Text
  pub secret : Text

pub data PrivateKeyAlgorithm : Type 0 where
  ed25519 : PrivateKeyAlgorithm
  rsa : ℕ → PrivateKeyAlgorithm

pub data PrivateKeySource : Type 0 where
  imported generated : PrivateKeySource

pub record VaultPrivateKey : Type 0 where
  pub id : Text
  pub label : Text
  pub algorithm : PrivateKeyAlgorithm
  pub public_key_openssh : Text
  pub private_key_pem : Text
  pub encrypted_at_rest : Bool
  pub source : PrivateKeySource

pub record ImportKeyRequest : Type 0 where
  pub label : Text
  pub private_key_pem : Text

pub record HostSummary : Type 0 where
  pub id : Text
  pub label : Text
  pub hostname : Text
  pub port : ℕ
  pub username : Text
  pub modified_at : ℤ

pub record CredentialSummary : Type 0 where
  pub id : Text
  pub label : Text
  pub username_hint : Option Text
  pub modified_at : ℤ

pub record KeySummary : Type 0 where
  pub id : Text
  pub label : Text
  pub algorithm : PrivateKeyAlgorithm
  pub encrypted_at_rest : Bool
  pub source : PrivateKeySource
  pub modified_at : ℤ

pub record PortForwardSummary : Type 0 where
  pub id : Text
  pub host_id : Text
  pub label : Text
  pub mode : PortForwardMode
  pub listen_address : Text
  pub listen_port : ℕ
  pub target_address : Text
  pub target_port : ℕ
  pub modified_at : ℤ

unfoldable pub host_summary : VaultHostProfile → ℤ → HostSummary
host_summary h modified_at = record {
  id = h.id;
  label = h.label;
  hostname = h.hostname;
  port = h.port;
  username = h.username;
  modified_at = modified_at;
}

unfoldable pub auth_summary : VaultHostProfile → HostAuthSummary
auth_summary h = record { host_id = h.id; host_label = h.label; auth_order = h.auth_order }

unfoldable pub credential_summary : VaultPasswordCredential → ℤ → CredentialSummary
credential_summary c modified_at = record {
  id = c.id;
  label = c.label;
  username_hint = c.username_hint;
  modified_at = modified_at;
}

unfoldable pub key_summary : VaultPrivateKey → ℤ → KeySummary
key_summary k modified_at = record {
  id = k.id;
  label = k.label;
  algorithm = k.algorithm;
  encrypted_at_rest = k.encrypted_at_rest;
  source = k.source;
  modified_at = modified_at;
}

unfoldable pub port_forward_summary : VaultPortForwardProfile → ℤ → PortForwardSummary
port_forward_summary p modified_at = record {
  id = p.id;
  host_id = p.host_id;
  label = p.label;
  mode = p.mode;
  listen_address = p.listen_address;
  listen_port = p.listen_port;
  target_address = p.target_address;
  target_port = p.target_port;
  modified_at = modified_at;
}

-- serde_json on a type.
pub record Serde (T : Type 0) : Type 0 where
  pub to_vec : T → Option Bytes
  pub from_vec : Bytes → Option T

-- RecordIdentity, with serde's reading and writing of the type.
pub record Stored (T : Type 0) : Type 0 where
  pub record_id : T → Text
  pub set_record_id : T → Text → T
  pub to_vec : T → Option Bytes
  pub from_vec : Bytes → Option T

abbrev pub stored_host : Serde VaultHostProfile → Stored VaultHostProfile
stored_host serde = record {
  record_id = λ h. h.id;
  set_record_id = λ h id. record h { id = id };
  to_vec = serde.to_vec;
  from_vec = serde.from_vec;
}

abbrev pub stored_credential : Serde VaultPasswordCredential → Stored VaultPasswordCredential
stored_credential serde = record {
  record_id = λ c. c.id;
  set_record_id = λ c id. record c { id = id };
  to_vec = serde.to_vec;
  from_vec = serde.from_vec;
}

abbrev pub stored_key : Serde VaultPrivateKey → Stored VaultPrivateKey
stored_key serde = record {
  record_id = λ k. k.id;
  set_record_id = λ k id. record k { id = id };
  to_vec = serde.to_vec;
  from_vec = serde.from_vec;
}

abbrev pub stored_port_forward : Serde VaultPortForwardProfile → Stored VaultPortForwardProfile
stored_port_forward serde = record {
  record_id = λ p. p.id;
  set_record_id = λ p id. record p { id = id };
  to_vec = serde.to_vec;
  from_vec = serde.from_vec;
}
