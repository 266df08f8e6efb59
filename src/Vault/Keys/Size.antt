-- ===== src/Vault/Keys/Size.antt =====
-- The size of an RSA key in crates/seance-vault/src/lib.rs: mpint_bit_length and u8::leading_zeros.
use seance.Prelude.{
  ℕ, zero, suc, ◌+◌, ◌-◌, ◌*◌, ◌^◌, ◌≤◌, ◌<◌, ◌%◌, [], ◌∷◌, length, All, ◌≡◌, refl, sym, ap, ◌∙◌,
  arith,
}
use native.Mathlib.Omega.{pow_step}
use native.Mathlib.Nat.{mul-le-mul_right}
use seance.Vault.Model.{Bytes}
use seance.Vault.Keys.{leading_zeros, mpint_bit_length}

-- The number that bytes are, the most significant first.
abbrev pub big_endian : Bytes → ℕ
big_endian [] = 0
big_endian (b ∷ rest) = b * 256 ^ length rest + big_endian rest

abbrev pub IsByte : ℕ → Type 0
IsByte b = b < 256

leading_zeros-bounds :
    (b : ℕ)
    → 1 ≤ b
    → b < 256
    → (1 ≤ 8 - leading_zeros b)
      × (leading_zeros b ≤ 7)
      × (2 ^ (7 - leading_zeros b) ≤ b)
      × (b < 2 ^ (8 - leading_zeros b))
unfolding leading_zeros
leading_zeros-bounds b h k = ground arith

big_endian-below : (bytes : Bytes) → All IsByte bytes → big_endian bytes < 256 ^ length bytes
big_endian-below [] h = omega arith
big_endian-below (b ∷ rest) h =
    let step : 256 ^ suc (length rest) ≡ 256 * 256 ^ length rest = pow_step 256 (length rest) in
    let below : big_endian rest < 256 ^ length rest = big_endian-below rest h.1 in
    let most : b * 256 ^ length rest ≤ 255 * 256 ^ length rest =
      mul-le-mul_right (256 ^ length rest) (omega (arith, h.0)) in
    omega (arith, step, below, most)

double : (n m : ℕ) → m ≡ n + 1 → 2 ^ m ≡ 2 * 2 ^ n
double n m e = ap (λ k. 2 ^ k) (e ∙ omega arith) ∙ pow_step 2 n

eight_bits : (n : ℕ) → 2 ^ (n + 8) ≡ 256 * 2 ^ n
eight_bits n = omega (
  arith,
  double n (n + 1) (omega arith),
  double (n + 1) (n + 2) (omega arith),
  double (n + 2) (n + 3) (omega arith),
  double (n + 3) (n + 4) (omega arith),
  double (n + 4) (n + 5) (omega arith),
  double (n + 5) (n + 6) (omega arith),
  double (n + 6) (n + 7) (omega arith),
  double (n + 7) (n + 8) (omega arith),
)

pow_bytes : (k : ℕ) → 2 ^ (k * 8) ≡ 256 ^ k
pow_bytes zero = refl
pow_bytes (suc k) =
    ap (λ n. 2 ^ n) (omega arith)
    ∙ eight_bits (k * 8)
    ∙ ap (λ n. 256 * n) (pow_bytes k)
    ∙ sym (pow_step 256 k)

pow-add : (m n : ℕ) → 2 ^ (m + n) ≡ 2 ^ m * 2 ^ n
pow-add m zero = let e : 2 ^ (m + 0) ≡ 2 ^ m = ap (λ k. 2 ^ k) (omega arith) in omega (arith, e)
pow-add m (suc n) =
    ap (λ k. 2 ^ k) (omega arith)
    ∙ pow_step 2 (m + n)
    ∙ ap (λ k. 2 * k) (pow-add m n)
    ∙ grind arith
    ∙ ap (λ k. 2 ^ m * k) (sym (pow_step 2 n))

power_of : (k m : ℕ) → 2 ^ (k * 8 + m) ≡ 2 ^ m * 256 ^ k
power_of k m = pow-add (k * 8) m ∙ ap (λ n. n * 2 ^ m) (pow_bytes k) ∙ grind arith

size_bounds :
    (first k z v : ℕ)
    → z ≤ 7
    → 2 ^ (7 - z) ≤ first
    → first < 2 ^ (8 - z)
    → v < 256 ^ k
    → (2 ^ (k * 8 + (8 - z) - 1) ≤ first * 256 ^ k + v)
      × (first * 256 ^ k + v < 2 ^ (k * 8 + (8 - z)))
size_bounds first k z v small low high below =
    let one_less : 2 ^ (k * 8 + (8 - z) - 1) ≡ 2 ^ (k * 8 + (7 - z)) =
      ap (λ n. 2 ^ n) (omega arith) in
    let least : 2 ^ (7 - z) * 256 ^ k ≤ first * 256 ^ k = mul-le-mul_right (256 ^ k) low in
    let most : (first + 1) * 256 ^ k ≤ 2 ^ (8 - z) * 256 ^ k =
      mul-le-mul_right (256 ^ k) (omega arith) in
    let spread : (first + 1) * 256 ^ k ≡ first * 256 ^ k + 256 ^ k = grind arith in
    (
      omega (arith, one_less, least, power_of k (7 - z)),
      omega (arith, most, spread, below, power_of k (8 - z)),
    )

-- The bytes of an RSA modulus without leading zeros, fewer than 2 ^ 29 of them, as an SSH key holds
-- it: its size in bits is the least number of binary digits that the modulus has, so the modulus
-- is at least 2 to the power of one digit fewer and less than 2 to the power of the size.
pub mpint_bit_length_lem :
    (first : ℕ) (rest : Bytes)
    → 1 ≤ first
    → All IsByte (first ∷ rest)
    → length rest < 2 ^ 29 - 1
    → let n = mpint_bit_length (first ∷ rest) in
      (2 ^ (n - 1) ≤ big_endian (first ∷ rest)) × (big_endian (first ∷ rest) < 2 ^ n)
unfolding mpint_bit_length
mpint_bit_length_lem first rest p h q =
    let z = leading_zeros-bounds first p h.0 in
    let no_wrap : (length rest % 2 ^ 32 * 8 + (8 - leading_zeros first)) % 2 ^ 32
        ≡ length rest * 8 + (8 - leading_zeros first) =
      omega arith in
    rw no_wrap (
      size_bounds first (length rest) (leading_zeros first) (big_endian rest) z.1 z.2 z.3
        (big_endian-below rest h.1))
