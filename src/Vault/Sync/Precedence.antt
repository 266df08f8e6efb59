-- ===== src/Vault/Sync/Precedence.antt =====
-- The precedence of two versions of a record in crates/seance-vault/src/lib.rs is the order of a
-- tuple of the compared fields.
use seance.Prelude.{ℕ, true, false, Option, Text, ◌≡◌, refl, subst}
use seance.Prelude.Compare.{
  ℤ, Ord, nat_ord, int_ord, option_ord, list_ord, pair_ord, is_le, is_le_refl, is_le_total,
  is_le_antisym, is_le_trans,
}
use seance.Vault.Model.{Bytes, EncryptedRecord}
use seance.Vault.Sync.{compare_record_precedence}

abbrev pub Rank : Type 0
Rank = ℕ × (ℤ × (Text × (Option ℤ × (Bytes × (Bytes × (Bytes × Bytes))))))

-- The fields that are compared, in their order.
abbrev pub rank : EncryptedRecord → Rank
rank r = (
  r.logical_clock,
  (
    r.modified_at,
    (
      r.record_id,
      (
        r.deleted_at,
        (r.key_nonce, (r.wrapped_record_key, (r.payload_nonce, r.payload_ciphertext))),
      ),
    ),
  ),
)

abbrev pub rank_ord : Ord Rank
rank_ord = pair_ord

pub compare_rank :
    (l r : EncryptedRecord) → compare_record_precedence l r ≡ rank_ord.cmp (rank l) (rank r)
unfolding compare_record_precedence
compare_rank l r = refl

-- Whether `r` takes precedence over `l`, or ranks the same.
abbrev pub Below : EncryptedRecord → EncryptedRecord → Type 0
Below l r = is_le (compare_record_precedence l r) ≡ true

pub Below-refl : (r : EncryptedRecord) → Below r r
unfolding compare_record_precedence
Below-refl r = is_le_refl rank_ord (rank r)

pub Below-total :
    (l r : EncryptedRecord) → is_le (compare_record_precedence l r) ≡ false → Below r l
unfolding compare_record_precedence
Below-total l r = is_le_total rank_ord (rank l) (rank r)

pub Below-trans : (a b c : EncryptedRecord) → Below a b → Below b c → Below a c
unfolding compare_record_precedence
Below-trans a b c = is_le_trans rank_ord (rank a) (rank b) (rank c)

-- Two versions that rank the same agree in every field that is compared.
pub Below-antisym : (l r : EncryptedRecord) → Below l r → Below r l → rank l ≡ rank r
unfolding compare_record_precedence
Below-antisym l r = is_le_antisym rank_ord (rank l) (rank r)

-- Only the compared fields count.
pub Below-rank :
    (a b c d : EncryptedRecord) → rank a ≡ rank b → rank c ≡ rank d → Below a c → Below b d
unfolding compare_record_precedence
Below-rank a b c d p q h =
    subst (λ x. is_le (rank_ord.cmp x (rank d)) ≡ true) p
      (subst (λ y. is_le (rank_ord.cmp (rank a) y) ≡ true) q h)
