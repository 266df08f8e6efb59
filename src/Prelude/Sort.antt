-- ===== src/Prelude/Sort.antt =====
-- `sort_by_key` with a key in the numbers: stable, as Rust's is.
use Prim.Native.Nat.{ℕ, ◌≤◌}
use mathlib.Core.List.{List, [], ◌∷◌, Perm}
use mathlib.Core.List.Perm
use mathlib.Core.Logic.{inl, inr}
use native.Mathlib.Omega.{arith}
use seance.Prelude.Tests.{leb, if◌then◌else◌, Bool-cases}
use seance.Prelude.Lists.{All, All-map}

module _ {ℓ} {A : Type ℓ} (key : A → ℕ) where
  -- An entry goes in front of those behind it in the input with an equal key.
  pub insert_by : A → List A → List A
  insert_by x [] = x ∷ []
  insert_by x (y ∷ ys) = if leb (key x) (key y) then x ∷ y ∷ ys else y ∷ insert_by x ys

  unfoldable pub sort_by_key : List A → List A
  unfolding insert_by
  sort_by_key [] = []
  sort_by_key (x ∷ xs) = insert_by x (sort_by_key xs)

  abbrev pub SortedBy : List A → Type 0
  SortedBy [] = Unit
  SortedBy (x ∷ xs) = All (λ y. key x ≤ key y) xs × SortedBy xs

  All-insert_by {κ} :
      (P : A → Type κ) (x : A) (xs : List A) → P x → All P xs → All P (insert_by x xs)
  unfolding insert_by
  All-insert_by P x [] p h = (p, tt)
  All-insert_by P x (y ∷ ys) p h = elim (Bool-cases (leb (key x) (key y))) [
    | inl e ↦ rw e (p, h)
    | inr e ↦ rw e (h.0, All-insert_by P x ys p h.1)
  ]

  insert_by-SortedBy : (x : A) (xs : List A) → SortedBy xs → SortedBy (insert_by x xs)
  unfolding insert_by
  insert_by-SortedBy x [] h = (tt, tt)
  insert_by-SortedBy x (y ∷ ys) h = elim (Bool-cases (leb (key x) (key y))) [
    | inl e ↦
        let le : key x ≤ key y = ground arith in
        rw e ((le, All-map _ _ (λ z p. omega arith) ys h.0), h)
    | inr e ↦
        let le : key y ≤ key x = ground arith in
        rw e (All-insert_by (λ z. key y ≤ key z) x ys le h.0, insert_by-SortedBy x ys h.1)
  ]

  pub sort_by_key-SortedBy : (xs : List A) → SortedBy (sort_by_key xs)
  unfolding sort_by_key
  sort_by_key-SortedBy [] = tt
  sort_by_key-SortedBy (x ∷ xs) = insert_by-SortedBy x (sort_by_key xs) (sort_by_key-SortedBy xs)

  insert_by-perm : (x : A) (xs : List A) → Perm (insert_by x xs) (x ∷ xs)
  unfolding insert_by
  insert_by-perm x [] = Perm.refl _
  insert_by-perm x (y ∷ ys) = elim (Bool-cases (leb (key x) (key y))) [
    | inl e ↦ rw e (Perm.refl _)
    | inr e ↦ rw e (Perm.trans (Perm.cons y (insert_by-perm x ys)) (Perm.swap x y ys))
  ]

  pub sort_by_key-perm : (xs : List A) → Perm (sort_by_key xs) xs
  unfolding sort_by_key
  sort_by_key-perm [] = Perm.refl _
  sort_by_key-perm (x ∷ xs) =
      Perm.trans (insert_by-perm x (sort_by_key xs)) (Perm.cons x (sort_by_key-perm xs))
