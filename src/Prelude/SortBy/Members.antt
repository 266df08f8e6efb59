-- ===== src/Prelude/SortBy/Members.antt =====
-- What a filter, a sort and a map keep of a list.
use mathlib.Core.Path.{◌≡◌, refl, ◌∙◌}
use mathlib.Core.Bool.{Bool}
use mathlib.Core.List.{List, [], ◌∷◌, map}
use mathlib.Core.Logic.{inl, inr}
use seance.Prelude.Tests.{Bool-cases}
use seance.Prelude.Lists.{All}
use seance.Prelude.SortBy.{retain, insert_by, sort_by}

-- A predicate of the elements, and an element of the list.
module _ {ℓ} {A : Type ℓ} where
  pub All-retain {κ} :
      (P : A → Type κ) (p : A → Bool) (xs : List A) → All P xs → All P (retain p xs)
  unfolding retain
  All-retain P p [] h = tt
  All-retain P p (x ∷ xs) h = elim (Bool-cases (p x)) [
    | inl e ↦ rw e (h.0, All-retain P p xs h.1)
    | inr e ↦ rw e (All-retain P p xs h.1)
  ]

  module _ (le : A → A → Bool) where
    All-insert_by {κ} :
        (P : A → Type κ) (x : A) (xs : List A) → P x → All P xs → All P (insert_by le x xs)
    unfolding insert_by
    All-insert_by P x [] p h = (p, tt)
    All-insert_by P x (y ∷ ys) p h = elim (Bool-cases (le x y)) [
      | inl e ↦ rw e (p, h)
      | inr e ↦ rw e (h.0, All-insert_by P x ys p h.1)
    ]

    pub All-sort_by {κ} : (P : A → Type κ) (xs : List A) → All P xs → All P (sort_by le xs)
    unfolding sort_by
    All-sort_by P [] h = tt
    All-sort_by P (x ∷ xs) h = All-insert_by P x (sort_by le xs) h.0 (All-sort_by P xs h.1)

-- A function of a list that does not depend on the order of two neighbours does not see a sort.
module _ {ℓ κ μ} {A : Type ℓ} {B : Type κ} {C : Type μ} (le : A → A → Bool) (g : List A → C → B)
    (swap : (x y : A) (ys : List A) (c : C) → g (x ∷ y ∷ ys) c ≡ g (y ∷ x ∷ ys) c)
    (cons : (x : A) (xs ys : List A)
      → ((c : C) → g xs c ≡ g ys c)
      → (c : C) → g (x ∷ xs) c ≡ g (x ∷ ys) c) where
  insert_by_unseen : (x : A) (xs : List A) (c : C) → g (insert_by le x xs) c ≡ g (x ∷ xs) c
  unfolding insert_by
  insert_by_unseen x [] c = refl
  insert_by_unseen x (y ∷ ys) c = elim (Bool-cases (le x y)) [
    | inl e ↦ rw e refl
    | inr e ↦ rw e (cons y (insert_by le x ys) (x ∷ ys) (insert_by_unseen x ys) c ∙ swap y x ys c)
  ]

  pub sort_by_unseen : (xs : List A) (c : C) → g (sort_by le xs) c ≡ g xs c
  unfolding sort_by
  sort_by_unseen [] c = refl
  sort_by_unseen (x ∷ xs) c =
      insert_by_unseen x (sort_by le xs) c ∙ cons x (sort_by le xs) xs (sort_by_unseen xs) c

pub All-along_map {ℓ κ μ ν} :
    {A : Type ℓ} {B : Type κ} (P : A → Type μ) (Q : B → Type ν) (f : A → B)
    → ((x : A) → P x → Q (f x))
    → (xs : List A) → All P xs
    → All Q (map f xs)
All-along_map P Q f g [] h = tt
All-along_map P Q f g (x ∷ xs) h = (g x h.0, All-along_map P Q f g xs h.1)
