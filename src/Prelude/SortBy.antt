-- ===== src/Prelude/SortBy.antt =====
-- `sort_by`, `any` and `retain` of Rust, and the order of its texts.
pub mod Members
use mathlib.Core.Path.{◌≡◌, refl, sym, ap, ◌∙◌, subst}
use mathlib.Core.Bool.{Bool, true, false, ◌&&◌, ◌||◌}
use mathlib.Core.List.{List, [], ◌∷◌, ◌++◌, map, Memᴰ}
use mathlib.Core.Logic.{inl, inr}
use native.Mathlib.Omega.{arith}
use seance.Prelude.Tests.{ltb, ◌==◌, if◌then◌else◌, Bool-cases}
use seance.Prelude.Lists.{All}
use seance.Prelude.Str.{Text}

module _ {ℓ} {A : Type ℓ} where
  -- `iter().any(p)`
  unfoldable pub any : (A → Bool) → List A → Bool
  any p [] = false
  any p (x ∷ xs) = p x || any p xs

  -- `retain(p)`
  unfoldable pub retain : (A → Bool) → List A → List A
  retain p [] = []
  retain p (x ∷ xs) = let rest = retain p xs in if p x then x ∷ rest else rest

  pub any-append : (p : A → Bool) (xs ys : List A) → any p (xs ++ ys) ≡ (any p xs || any p ys)
  unfolding any
  any-append p [] ys = refl
  any-append p (x ∷ xs) ys = ground (arith, any-append p xs ys)

  pub any-retain : (p q : A → Bool) (xs : List A) → any p (retain q xs) ≡ any (λ x. q x && p x) xs
  unfolding any retain
  any-retain p q [] = refl
  any-retain p q (x ∷ xs) = elim (Bool-cases (q x)) [
    | inl e ↦ rw e (ap (λ b. p x || b) (any-retain p q xs))
    | inr e ↦ rw e (any-retain p q xs)
  ]

  -- `le` is whether the comparison is not Greater. The sort is stable.
  module _ (le : A → A → Bool) where
    insert_by : A → List A → List A
    insert_by x [] = x ∷ []
    insert_by x (y ∷ ys) = if le x y then x ∷ y ∷ ys else y ∷ insert_by x ys

    unfoldable pub sort_by : List A → List A
    unfolding insert_by
    sort_by [] = []
    sort_by (x ∷ xs) = insert_by x (sort_by xs)

    any-insert_by :
        (p : A → Bool) (x : A) (xs : List A) → any p (insert_by x xs) ≡ (p x || any p xs)
    unfolding any insert_by
    any-insert_by p x [] = refl
    any-insert_by p x (y ∷ ys) = elim (Bool-cases (le x y)) [
      | inl e ↦ rw e refl
      | inr e ↦ rw e (ap (λ b. p y || b) (any-insert_by p x ys) ∙ ground arith)
    ]

    -- Sorting keeps what is in the list.
    pub any-sort_by : (p : A → Bool) (xs : List A) → any p (sort_by xs) ≡ any p xs
    unfolding any sort_by
    any-sort_by p [] = refl
    any-sort_by p (x ∷ xs) = any-insert_by p x (sort_by xs) ∙ ap (λ b. p x || b) (any-sort_by p xs)

-- Texts are compared by their bytes, which in UTF-8 is by their code points.
unfoldable pub text_ltb : Text → Text → Bool
text_ltb s [] = false
text_ltb [] (d ∷ ds) = true
text_ltb (c ∷ cs) (d ∷ ds) = let rest = text_ltb cs ds in ltb c d || ((c == d) && rest)
