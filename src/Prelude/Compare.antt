-- ===== src/Prelude/Compare.antt =====
-- Rust's `Ord`: comparisons of numbers, integers, options, lists and pairs, as an interface.
use Prim.Native.Nat.{ℕ, compare, Ordering}
use mathlib.Core.Path.{◌≡◌, refl, sym, ap, ◌∙◌}
use mathlib.Core.Logic.{◌↔◌}
use seance.Prelude.Tests.{if◌then◌else◌}
use mathlib.Core.Bool.{Bool, true, false}
use mathlib.Core.Option.{Option, none, some}
use mathlib.Core.List.{List, [], ◌∷◌}
use native.Mathlib.Omega.{arith}

-- Ordering::then_with
abbrev pub then_with : Ordering → Ordering → Ordering
then_with Ordering.lt o = Ordering.lt
then_with Ordering.eq o = o
then_with Ordering.gt o = Ordering.gt

-- Ordering::reverse
abbrev pub reversed : Ordering → Ordering
reversed Ordering.lt = Ordering.gt
reversed Ordering.eq = Ordering.eq
reversed Ordering.gt = Ordering.lt

-- Ordering::is_le
abbrev pub is_le : Ordering → Bool
is_le Ordering.lt = true
is_le Ordering.eq = true
is_le Ordering.gt = false

pub record Ord {ℓ} (A : Type ℓ) : Type ℓ where
  pub cmp : A → A → Ordering
  pub cmp_iff : (a b : A) → (cmp a b ≡ Ordering.eq) ↔ (a ≡ b)
  pub cmp_swap : (a b : A) → cmp b a ≡ reversed (cmp a b)
  pub cmp_trans :
      (a b c : A) → cmp a b ≡ Ordering.lt → cmp b c ≡ Ordering.lt → cmp a c ≡ Ordering.lt

pub nat_iff : (a b : ℕ) → (compare a b ≡ Ordering.eq) ↔ (a ≡ b)
nat_iff a b = ground arith

pub nat_swap : (a b : ℕ) → compare b a ≡ reversed (compare a b)
nat_swap a b = ground arith

pub nat_trans :
    (a b c : ℕ) → compare a b ≡ Ordering.lt → compare b c ≡ Ordering.lt → compare a c ≡ Ordering.lt
nat_trans a b c = ground arith

instance abbrev pub nat_ord : Ord ℕ
nat_ord = record { cmp = compare; cmp_iff = nat_iff; cmp_swap = nat_swap; cmp_trans = nat_trans }

-- i64, over the native numbers: `negsuc n` is -(n + 1).
pub data ℤ : Type 0 where
  pos negsuc : ℕ → ℤ

abbrev pub int_cmp : ℤ → ℤ → Ordering
int_cmp (pos m) (pos n) = compare m n
int_cmp (pos m) (negsuc n) = Ordering.gt
int_cmp (negsuc m) (pos n) = Ordering.lt
int_cmp (negsuc m) (negsuc n) = compare n m

pub int_iff : (a b : ℤ) → (int_cmp a b ≡ Ordering.eq) ↔ (a ≡ b)
int_iff (pos m) (pos n) = ground arith
int_iff (pos m) (negsuc n) = ground arith
int_iff (negsuc m) (pos n) = ground arith
int_iff (negsuc m) (negsuc n) = ground arith

pub int_swap : (a b : ℤ) → int_cmp b a ≡ reversed (int_cmp a b)
int_swap (pos m) (pos n) = ground arith
int_swap (pos m) (negsuc n) = refl
int_swap (negsuc m) (pos n) = refl
int_swap (negsuc m) (negsuc n) = ground arith

pub int_trans :
    (a b c : ℤ) → int_cmp a b ≡ Ordering.lt → int_cmp b c ≡ Ordering.lt → int_cmp a c ≡ Ordering.lt
int_trans a b c p q = ground arith

instance abbrev pub int_ord : Ord ℤ
int_ord = record { cmp = int_cmp; cmp_iff = int_iff; cmp_swap = int_swap; cmp_trans = int_trans }

module _ {ℓ} {A : Type ℓ} ⦃o : Ord A⦄ where
  -- None is below Some.
  abbrev pub option_cmp : Option A → Option A → Ordering
  option_cmp none none = Ordering.eq
  option_cmp none (some b) = Ordering.lt
  option_cmp (some a) none = Ordering.gt
  option_cmp (some a) (some b) = o.cmp a b

  pub option_iff : (x y : Option A) → (option_cmp x y ≡ Ordering.eq) ↔ (x ≡ y)
  option_iff none none = ground arith
  option_iff none (some b) = ground arith
  option_iff (some a) none = ground arith
  option_iff (some a) (some b) = ground (arith, o.cmp_iff a b)

  pub option_swap : (x y : Option A) → option_cmp y x ≡ reversed (option_cmp x y)
  option_swap none none = refl
  option_swap none (some b) = refl
  option_swap (some a) none = refl
  option_swap (some a) (some b) = o.cmp_swap a b

  pub option_trans :
      (x y z : Option A)
      → option_cmp x y ≡ Ordering.lt
      → option_cmp y z ≡ Ordering.lt
      → option_cmp x z ≡ Ordering.lt
  option_trans none y (some c) p q = refl
  option_trans none none none p q = p
  option_trans none (some b) none p q = absurd (cc)
  option_trans (some a) none z p q = absurd (cc)
  option_trans (some a) (some b) none p q = absurd (cc)
  option_trans (some a) (some b) (some c) p q = o.cmp_trans a b c p q

  instance abbrev pub option_ord : Ord (Option A)
  option_ord = record {
    cmp = option_cmp;
    cmp_iff = option_iff;
    cmp_swap = option_swap;
    cmp_trans = option_trans;
  }

  -- Slices are compared element by element; a prefix is below.
  unfoldable pub list_cmp : List A → List A → Ordering
  list_cmp [] [] = Ordering.eq
  list_cmp [] (b ∷ bs) = Ordering.lt
  list_cmp (a ∷ as') [] = Ordering.gt
  list_cmp (a ∷ as') (b ∷ bs) = then_with (o.cmp a b) (list_cmp as' bs)

  pub list_iff : (x y : List A) → (list_cmp x y ≡ Ordering.eq) ↔ (x ≡ y)
  unfolding list_cmp
  list_iff [] [] = ground arith
  list_iff [] (b ∷ bs) = ground arith
  list_iff (a ∷ as') [] = ground arith
  list_iff (a ∷ as') (b ∷ bs) = ground (arith, o.cmp_iff a b, list_iff as' bs)

  pub list_swap : (x y : List A) → list_cmp y x ≡ reversed (list_cmp x y)
  unfolding list_cmp
  list_swap [] [] = refl
  list_swap [] (b ∷ bs) = refl
  list_swap (a ∷ as') [] = refl
  list_swap (a ∷ as') (b ∷ bs) = ground (arith, o.cmp_swap a b, list_swap as' bs)

  pub list_trans :
      (x y z : List A)
      → list_cmp x y ≡ Ordering.lt
      → list_cmp y z ≡ Ordering.lt
      → list_cmp x z ≡ Ordering.lt
  unfolding list_cmp
  list_trans [] y (c ∷ cs) p q = refl
  list_trans [] [] [] p q = p
  list_trans [] (b ∷ bs) [] p q = absurd (cc)
  list_trans (a ∷ as') [] z p q = absurd (cc)
  list_trans (a ∷ as') (b ∷ bs) [] p q = absurd (cc)
  list_trans (a ∷ as') (b ∷ bs) (c ∷ cs) p q =
      ground (
        arith,
        o.cmp_trans a b c,
        o.cmp_iff a b,
        o.cmp_iff b c,
        o.cmp_iff a c,
        list_trans as' bs cs,
      )

  instance abbrev pub list_ord : Ord (List A)
  list_ord = record {
    cmp = list_cmp;
    cmp_iff = list_iff;
    cmp_swap = list_swap;
    cmp_trans = list_trans;
  }

-- The first components decide, then the second.
module _ {ℓ κ} {A : Type ℓ} {B : Type κ} ⦃o : Ord A⦄ ⦃u : Ord B⦄ where
  abbrev pub pair_cmp : A × B → A × B → Ordering
  pair_cmp p q = then_with (o.cmp p.0 q.0) (u.cmp p.1 q.1)

  pub pair_iff : (p q : A × B) → (pair_cmp p q ≡ Ordering.eq) ↔ (p ≡ q)
  pair_iff (a, b) (c, d) = ground (arith, o.cmp_iff a c, u.cmp_iff b d)

  pub pair_swap : (p q : A × B) → pair_cmp q p ≡ reversed (pair_cmp p q)
  pair_swap (a, b) (c, d) = ground (arith, o.cmp_swap a c, u.cmp_swap b d)

  pub pair_trans :
      (p q r : A × B)
      → pair_cmp p q ≡ Ordering.lt
      → pair_cmp q r ≡ Ordering.lt
      → pair_cmp p r ≡ Ordering.lt
  pair_trans (a, b) (c, d) (e, f) h k =
      ground
        (arith, o.cmp_trans a c e, u.cmp_trans b d f, o.cmp_iff a c, o.cmp_iff c e, o.cmp_iff a e)

  instance abbrev pub pair_ord : Ord (A × B)
  pair_ord = record {
    cmp = pair_cmp;
    cmp_iff = pair_iff;
    cmp_swap = pair_swap;
    cmp_trans = pair_trans;
  }

-- The order that a comparison gives.
module _ {ℓ} {A : Type ℓ} (o : Ord A) where
  pub is_le_refl : (a : A) → is_le (o.cmp a a) ≡ true
  is_le_refl a = ground (arith, o.cmp_iff a a)

  pub is_le_total : (a b : A) → is_le (o.cmp a b) ≡ false → is_le (o.cmp b a) ≡ true
  is_le_total a b h = ground (arith, o.cmp_swap a b)

  pub is_le_antisym : (a b : A) → is_le (o.cmp a b) ≡ true → is_le (o.cmp b a) ≡ true → a ≡ b
  is_le_antisym a b h k = ground (arith, o.cmp_swap a b, o.cmp_iff a b)

  pub is_le_trans :
      (a b c : A) → is_le (o.cmp a b) ≡ true → is_le (o.cmp b c) ≡ true → is_le (o.cmp a c) ≡ true
  is_le_trans a b c h k =
      ground (arith, o.cmp_trans a b c, o.cmp_iff a b, o.cmp_iff b c, o.cmp_iff a c)

  -- The greater of two, the second where they are equal.
  abbrev pub greater : A → A → A
  greater a b = if is_le (o.cmp a b) then b else a

  pub greater_idem : (a : A) → greater a a ≡ a
  greater_idem a = ground arith

  pub greater_comm : (a b : A) → greater a b ≡ greater b a
  greater_comm a b = ground (arith, is_le_antisym a b, is_le_total a b, is_le_total b a)

  pub greater_assoc : (a b c : A) → greater (greater a b) c ≡ greater a (greater b c)
  greater_assoc a b c = ground (
    arith,
    is_le_trans a b c,
    is_le_total a b,
    is_le_total b c,
    is_le_trans c b a,
    is_le_antisym a c,
    is_le_total a c,
  )

  pub greater_left_comm : (a b c : A) → greater a (greater b c) ≡ greater b (greater a c)
  greater_left_comm a b c =
      sym (greater_assoc a b c) ∙ ap (λ x. greater x c) (greater_comm a b) ∙ greater_assoc b a c
