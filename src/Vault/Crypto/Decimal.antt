-- ===== src/Vault/Crypto/Decimal.antt =====
-- Numbers in the texts that crates/seance-vault/src/lib.rs authenticates: they are printed in full, so
-- that texts for different versions differ.
use seance.Prelude.{
  ℕ, zero, suc, ◌+◌, ◌-◌, ◌*◌, ◌/◌, ◌%◌, ◌<◌, [], ◌∷◌, ◌++◌, ltb, Text, codes, ◌≡◌, refl, ap, sym,
  ◌∙◌, inl, inr, arith, Bool-cases,
}
use seance.Vault.Model.{RecordKind, kind_as_str}
use seance.Vault.Crypto.{decimal_from, decimal, record_aad}

-- The number that digits are, after what came before them.
abbrev value_after : ℕ → Text → ℕ
value_after n [] = n
value_after n (c ∷ cs) = value_after (n * 10 + (c - 48)) cs

value_after-++ :
    (n : ℕ) (cs : Text) (c : ℕ) → value_after n (cs ++ c ∷ []) ≡ value_after n cs * 10 + (c - 48)
value_after-++ n [] c = refl
value_after-++ n (x ∷ cs) c = value_after-++ (n * 10 + (x - 48)) cs c

value-decimal_from : (fuel n : ℕ) → n < fuel → value_after 0 (decimal_from fuel n) ≡ n
unfolding decimal_from
value-decimal_from zero n h = omega arith
value-decimal_from (suc fuel) n h = elim (Bool-cases (ltb n 10)) [
  | inl small ↦ rw small (ground arith)
  | inr large ↦ rw large (
      value_after-++ 0 (decimal_from fuel (n / 10)) (n % 10 + 48)
      ∙ ap (λ k. k * 10 + (n % 10 + 48 - 48)) (value-decimal_from fuel (n / 10) (ground arith))
      ∙ ground arith)
]

-- The fuel of `decimal` is enough: the digits are those of the number.
value-decimal : (n : ℕ) → value_after 0 (decimal n) ≡ n
unfolding decimal
value-decimal n = value-decimal_from (suc n) n (omega arith)

++-cancel : (p a b : Text) → p ++ a ≡ p ++ b → a ≡ b
++-cancel [] a b h = h
++-cancel (x ∷ p) a b h = ++-cancel p a b (ground arith)

-- Two versions of a record's schema have the same text only if they are the same version.
pub record_aad-version :
    (vault_id record_id : Text) (kind : RecordKind) (v w : ℕ)
    → record_aad vault_id record_id kind v ≡ record_aad vault_id record_id kind w
    → v ≡ w
unfolding record_aad
record_aad-version vault_id record_id kind v w h =
    let front : Text =
      codes "seance:v1:record:"
      ++ vault_id
      ++ codes ":"
      ++ record_id
      ++ codes ":"
      ++ kind_as_str kind
      ++ codes ":" in
    sym (value-decimal v)
    ∙ ap (value_after 0) (++-cancel front (decimal v) (decimal w) h)
    ∙ value-decimal w
