-- ===== src/Vault/Crypto/Roundtrip.antt =====
-- What is asked of the cipher that crates/seance-vault/src/crypto.rs calls, and what it gives for the
-- envelopes there.
use seance.Prelude.{true, some, Text, ◌==◌, length, ok, ◌≡◌, refl, arith}
use seance.Vault.Model.{Bytes, RecoveryBundle}
use seance.Vault.Crypto.{
  Primitives, SecretKey, nonce_len, key_len, from_slice, encrypt, decrypt, recovery_aad,
  decrypt_recovery_master_key,
}

-- XChaCha20Poly1305 gives back what it sealed, under the same key, nonce and additional data.
pub record IsCipher (lib : Primitives) : Type 0 where
  pub opens :
      (key nonce plaintext ciphertext : Bytes) (aad : Text)
      → lib.encrypt key nonce plaintext aad ≡ some ciphertext
      → lib.decrypt key nonce ciphertext aad ≡ some plaintext

module _ (lib : Primitives) where
  pub encrypt_some :
      (key : SecretKey) (plaintext nonce ciphertext : Bytes) (aad : Text)
      → lib.encrypt key.bytes nonce plaintext aad ≡ some ciphertext
      → encrypt lib key plaintext aad nonce ≡ ok (record { nonce = nonce; ciphertext = ciphertext })
  unfolding encrypt
  encrypt_some key plaintext nonce ciphertext aad e = rw e refl

  pub decrypt-encrypt :
      IsCipher lib
      → (key : SecretKey) (plaintext nonce ciphertext : Bytes) (aad : Text)
      → lib.encrypt key.bytes nonce plaintext aad ≡ some ciphertext
      → length nonce ≡ nonce_len
      → decrypt lib key nonce ciphertext aad ≡ ok plaintext
  unfolding decrypt
  decrypt-encrypt c key plaintext nonce ciphertext aad e n =
      let fits : (length nonce == nonce_len) ≡ true = ground arith in
      rw fits (rw (c.opens key.bytes nonce plaintext ciphertext aad e) refl)

  pub decrypt_recovery-encrypt :
      IsCipher lib
      → (key : SecretKey) (vault_id : Text) (master_key : Bytes) (bundle : RecoveryBundle)
      → lib.encrypt key.bytes bundle.wrapping_nonce master_key
          (recovery_aad lib vault_id bundle.params)
        ≡ some bundle.wrapped_master_key
      → length bundle.wrapping_nonce ≡ nonce_len
      → decrypt_recovery_master_key lib key vault_id bundle ≡ ok master_key
  unfolding decrypt_recovery_master_key
  decrypt_recovery-encrypt c key vault_id master_key bundle e n =
      rw (decrypt-encrypt c key master_key bundle.wrapping_nonce bundle.wrapped_master_key _ e n)
        refl

pub from_slice_fits :
    (bytes : Bytes) → length bytes ≡ key_len → from_slice bytes ≡ ok (record { bytes = bytes })
unfolding from_slice
from_slice_fits bytes e = let fits : (length bytes == key_len) ≡ true = ground arith in rw fits refl
