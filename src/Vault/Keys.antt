-- ===== src/Vault/Keys.antt =====
-- SSH keys in crates/seance-vault/src/lib.rs: the algorithm and the size of a key, its inspection, and
-- the checks of a key that is stored. Reading and making keys belongs to the ssh_key library: what it
-- finds in a key's text is an argument.
pub mod Size
use seance.Prelude.{
  ℕ, ◌+◌, ◌-◌, ◌*◌, ◌^◌, ◌%◌, Bool, true, false, not, ◌&&◌, Option, none, some, List, [], ◌∷◌,
  if◌then◌else◌, leb, ◌==◌, length, is_empty, Text, codes, trim, Result, ok, err, ◌>>=◌, ◌>>◌,
  ensure,
}
use seance.Vault.Model.{Bytes}
use seance.Vault.Failure.{
  VaultError, ssh_key, corrupt_vault, empty_private_key_label, empty_private_key,
  unsupported_private_key_algorithm,
}
use seance.Vault.Profiles.{PrivateKeyAlgorithm, ed25519, rsa, VaultPrivateKey}

-- The algorithm of a public key, with the modulus of an RSA key where there is one.
pub data SshAlgorithm : Type 0 where
  ssh_ed25519 : SshAlgorithm
  ssh_rsa : Option Bytes → SshAlgorithm
  ssh_other : SshAlgorithm

-- What ssh_key reads in a key's text.
pub record SshKey : Type 0 where
  pub algorithm : SshAlgorithm
  pub public_openssh : Option Text
  pub is_encrypted : Bool

abbrev pub default_rsa_bits : ℕ
default_rsa_bits = 4096

-- u8::leading_zeros
unfoldable pub leading_zeros : ℕ → ℕ
leading_zeros b =
    if leb 128 b
    then 0
    else if leb 64 b
    then 1
    else if leb 32 b
    then 2
    else if leb 16 b
    then 3
    else if leb 8 b
    then 4
    else if leb 4 b
    then 5
    else if leb 2 b
    then 6
    else if leb 1 b
    then 7
    else 8

-- The conversion to u32 and the product wrap.
unfoldable pub mpint_bit_length : Bytes → ℕ
unfolding leading_zeros
mpint_bit_length [] = 0
mpint_bit_length (first ∷ rest) = (length rest % 2 ^ 32 * 8 + (8 - leading_zeros first)) % 2 ^ 32

rsa_bits : Option Bytes → ℕ
unfolding mpint_bit_length
rsa_bits none = default_rsa_bits
rsa_bits (some modulus) = mpint_bit_length modulus

unfoldable pub private_key_algorithm : SshAlgorithm → Result VaultError PrivateKeyAlgorithm
unfolding rsa_bits
private_key_algorithm ssh_ed25519 = ok ed25519
private_key_algorithm (ssh_rsa modulus) = ok (rsa (rsa_bits modulus))
private_key_algorithm ssh_other = err unsupported_private_key_algorithm

-- PrivateKeyAlgorithm's `==`.
pub algorithm_beq : PrivateKeyAlgorithm → PrivateKeyAlgorithm → Bool
algorithm_beq ed25519 ed25519 = true
algorithm_beq ed25519 (rsa n) = false
algorithm_beq (rsa m) ed25519 = false
algorithm_beq (rsa m) (rsa n) = m == n

-- `?` on a result of ssh_key.
unfoldable pub ssh : {A : Type 0} → Option A → Result VaultError A
ssh none = err ssh_key
ssh (some a) = ok a

pub record PrivateKeyInspection : Type 0 where
  pub algorithm : PrivateKeyAlgorithm
  pub public_key_openssh : Text
  pub encrypted_at_rest : Bool

module _ (from_openssh : Text → Option SshKey) where
  unfoldable pub inspect_private_key_pem : Text → Result VaultError PrivateKeyInspection
  unfolding ssh private_key_algorithm
  inspect_private_key_pem private_key_pem = do
    key ← ssh (from_openssh private_key_pem)
    algorithm ← private_key_algorithm key.algorithm
    public_key_openssh ← ssh key.public_openssh
    ok (record {
      algorithm = algorithm;
      public_key_openssh = public_key_openssh;
      encrypted_at_rest = key.is_encrypted;
    })

  unfoldable pub validate_private_key : VaultPrivateKey → Result VaultError (Unit {0})
  unfolding ssh private_key_algorithm algorithm_beq
  validate_private_key key = do
    ensure (not (is_empty (trim key.label))) empty_private_key_label
    ensure (not (is_empty (trim key.private_key_pem))) empty_private_key
    parsed ← ssh (from_openssh key.private_key_pem)
    algorithm ← private_key_algorithm parsed.algorithm
    ensure (algorithm_beq algorithm key.algorithm)
        (corrupt_vault (codes "private key algorithm metadata does not match the encoded key"))
