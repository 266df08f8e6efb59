-- ===== src/Prelude/Member.antt =====
-- `contains` of slices and hash sets, and lists without a double.
use mathlib.Core.Path.{◌≡◌, refl}
use mathlib.Core.Logic.{◌↔◌}
use mathlib.Core.Bool.{Bool, false, ◌||◌}
use mathlib.Core.List.{List, [], ◌∷◌}
use native.Mathlib.Omega.{arith}
use seance.Prelude.Lists.{All}
use seance.Prelude.Equality.{Eq}

module _ {ℓ} {A : Type ℓ} ⦃e : Eq A⦄ where
  unfoldable pub contains : List A → A → Bool
  contains [] a = false
  contains (x ∷ xs) a = e.beq x a || contains xs a

  -- No element stands twice.
  abbrev pub Unique : List A → Type 0
  Unique [] = Unit
  Unique (x ∷ xs) = (contains xs x ≡ false) × Unique xs

  -- Each element passes `seen.insert(x)`, the earlier ones being in the set by then.
  abbrev pub Unseen : List A → List A → Type 0
  Unseen seen [] = Unit
  Unseen seen (x ∷ xs) = (contains seen x ≡ false) × Unseen (x ∷ seen) xs

  abbrev Apart : List A → List A → Type 0
  Apart seen = All (λ x. contains seen x ≡ false)

  Apart-cons :
      (x : A) (seen xs : List A) → Apart (x ∷ seen) xs ↔ Apart seen xs × (contains xs x ≡ false)
  unfolding contains
  Apart-cons x seen [] = (λ h. (tt, refl), λ h. tt)
  Apart-cons x seen (y ∷ ys) = ground (arith, Apart-cons x seen ys, e.beq_iff x y, e.beq_iff y x)

  Unseen-iff : (xs seen : List A) → Unseen seen xs ↔ Apart seen xs × Unique xs
  Unseen-iff [] seen = (λ h. (tt, tt), λ h. tt)
  Unseen-iff (x ∷ xs) seen = ground (arith, Unseen-iff xs (x ∷ seen), Apart-cons x seen xs)

  Apart-nil : (xs : List A) → Apart [] xs
  unfolding contains
  Apart-nil [] = tt
  Apart-nil (x ∷ xs) = (refl, Apart-nil xs)

  pub Unseen-nil_iff : (xs : List A) → Unseen [] xs ↔ Unique xs
  Unseen-nil_iff xs = (λ h. ((Unseen-iff xs []).0 h).1, λ h. (Unseen-iff xs []).1 (Apart-nil xs, h))
