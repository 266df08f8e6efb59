-- ===== src/Vault/Crypto.antt =====
-- Keys and envelopes: crates/seance-vault/src/crypto.rs, KdfParams of crates/seance-vault/src/kdf.rs
-- and the texts that are authenticated with each envelope, of crates/seance-vault/src/lib.rs. The
-- cipher, the hash of a passphrase and base64 belong to other libraries and are a parameter; what
-- is drawn at random is an argument.
pub mod Roundtrip
pub mod Decimal
use seance.Prelude.{
  ℕ, zero, suc, ◌+◌, ◌/◌, ◌%◌, Bool, true, Option, none, some, List, [], ◌∷◌, ◌++◌, if◌then◌else◌,
  ltb, ◌==◌, length, Text, codes, Result, ok, err, ◌>>=◌, ◌>>◌, ensure,
}
use seance.Vault.Model.{Bytes, KdfParams, RecordKind, kind_as_str, RecoveryBundle}
use seance.Vault.Failure.{
  VaultError, encryption_failed, decryption_failed, invalid_key_length, invalid_nonce_length,
  invalid_kdf_config, passphrase_derivation_failed,
}

-- What other libraries do. The additional data of the cipher is given as the text whose bytes it is.
pub record Primitives : Type 0 where
  pub encrypt : Bytes → Bytes → Bytes → Text → Option Bytes
  pub decrypt : Bytes → Bytes → Bytes → Text → Option Bytes
  pub params_new : ℕ → ℕ → ℕ → Result Text (Unit {0})
  pub hash_password : KdfParams → Text → Result Text Bytes
  pub base64 : Bytes → Text

abbrev pub key_len : ℕ
key_len = 32

abbrev pub nonce_len : ℕ
nonce_len = 24

pub record SecretKey : Type 0 where
  pub bytes : Bytes

pub record CipherEnvelope : Type 0 where
  pub nonce : Bytes
  pub ciphertext : Bytes

unfoldable pub from_slice : Bytes → Result VaultError SecretKey
from_slice bytes =
    if length bytes == key_len
    then ok (record { bytes = bytes })
    else err (invalid_key_length key_len (length bytes))

-- Numbers in decimal, as `{}` prints them: the fuel is the number itself.
unfoldable pub decimal_from : ℕ → ℕ → Text
decimal_from zero n = []
decimal_from (suc fuel) n =
    let digit : ℕ = n % 10 + 48 in
    let rest : Text = decimal_from fuel (n / 10) in
    if ltb n 10 then digit ∷ [] else rest ++ digit ∷ []

unfoldable pub decimal : ℕ → Text
unfolding decimal_from
decimal n = decimal_from (suc n) n

-- Result::map_err
pub map_err : {A : Type 0} → (Text → VaultError) → Result Text A → Result VaultError A
map_err f (ok a) = ok a
map_err f (err message) = err (f message)

-- KdfParams::recommended, with the salt that is drawn.
unfoldable pub recommended : Bytes → KdfParams
recommended salt = record { salt = salt; memory_kib = 131072; iterations = 4; parallelism = 4 }

unfoldable pub legacy_recovery_aad : Text → Text
legacy_recovery_aad vault_id = codes "seance:v1:recovery:" ++ vault_id

-- Result::or_else
or_else : Result VaultError Bytes → Result VaultError Bytes → Result VaultError Bytes
or_else (ok bytes) other = ok bytes
or_else (err e) other = other

sealed : Bytes → Option Bytes → Result VaultError CipherEnvelope
sealed nonce none = err encryption_failed
sealed nonce (some ciphertext) = ok (record { nonce = nonce; ciphertext = ciphertext })

opened : Option Bytes → Result VaultError Bytes
opened none = err decryption_failed
opened (some plaintext) = ok plaintext

module _ (lib : Primitives) where
  -- The key has the length that the cipher takes, so the cipher can be set up.
  unfoldable pub encrypt : SecretKey → Bytes → Text → Bytes → Result VaultError CipherEnvelope
  unfolding sealed
  encrypt key plaintext aad nonce = sealed nonce (lib.encrypt key.bytes nonce plaintext aad)

  unfoldable pub decrypt : SecretKey → Bytes → Bytes → Text → Result VaultError Bytes
  unfolding opened
  decrypt key nonce ciphertext aad =
      if length nonce == nonce_len
      then opened (lib.decrypt key.bytes nonce ciphertext aad)
      else err (invalid_nonce_length nonce_len (length nonce))

  unfoldable pub derive_wrap_key : KdfParams → Text → Result VaultError SecretKey
  unfolding map_err
  derive_wrap_key p passphrase = do
    map_err invalid_kdf_config (lib.params_new p.memory_kib p.iterations p.parallelism)
    output ← map_err passphrase_derivation_failed (lib.hash_password p passphrase)
    ok (record { bytes = output })

  unfoldable pub recovery_aad : Text → KdfParams → Text
  recovery_aad vault_id params =
      codes "seance:v1:recovery:"
      ++ vault_id
      ++ codes ":m="
      ++ decimal params.memory_kib
      ++ codes ":t="
      ++ decimal params.iterations
      ++ codes ":p="
      ++ decimal params.parallelism
      ++ codes ":salt="
      ++ lib.base64 params.salt

  unfoldable pub decrypt_recovery_master_key :
      SecretKey → Text → RecoveryBundle → Result VaultError Bytes
  unfolding or_else
  decrypt_recovery_master_key wrap_key vault_id bundle =
      or_else
        (decrypt wrap_key bundle.wrapping_nonce bundle.wrapped_master_key
          (recovery_aad vault_id bundle.params))
        (decrypt wrap_key bundle.wrapping_nonce bundle.wrapped_master_key
          (legacy_recovery_aad vault_id))

unfoldable pub device_wrap_aad : Text → Text → Text
device_wrap_aad vault_id device_id = codes "seance:v1:device:" ++ vault_id ++ codes ":" ++ device_id

unfoldable pub record_key_aad : Text → Text → Text
record_key_aad vault_id record_id =
    codes "seance:v1:record-key:" ++ vault_id ++ codes ":" ++ record_id

unfoldable pub record_aad : Text → Text → RecordKind → ℕ → Text
record_aad vault_id record_id kind version =
    codes "seance:v1:record:"
    ++ vault_id
    ++ codes ":"
    ++ record_id
    ++ codes ":"
    ++ kind_as_str kind
    ++ codes ":"
    ++ decimal version

unfoldable pub device_account_name : Text → Text → Text
device_account_name vault_id device_id = vault_id ++ codes ":" ++ device_id
