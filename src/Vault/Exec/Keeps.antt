-- ===== src/Vault/Exec/Keeps.antt =====
-- Invariants of methods: one rule for each way to build a method.
use seance.Prelude.{
  ◌≡◌, refl, Bool, true, false, Option, none, some, List, [], ◌∷◌, Result, ok, err, if◌then◌else◌,
}
use seance.Vault.Exec.{
  Exec, pure, raise, lift, gets, ok_or, modify, raise_if, continue, ◌>>=◌, ◌>>◌, caught, either,
  for_each,
}

-- `m` keeps `P`, whether it returns or fails.
pub record Keeps {E S A : Type 0} (P : S → Type 0) (m : Exec E S A) : Type 0 where
  pub at : (s : S) → P s → P (m s).1

module _ {E S A : Type 0} {P : S → Type 0} where
  pub Keeps-pure : (a : A) → Keeps {E = E} P (pure a)
  unfolding pure
  Keeps-pure a = record { at = λ s h. h }

  pub Keeps-raise : (e : E) → Keeps P (raise {A = A} e)
  unfolding raise
  Keeps-raise e = record { at = λ s h. h }

  pub Keeps-lift : (r : Result E A) → Keeps P (lift r)
  unfolding lift
  Keeps-lift r = record { at = λ s h. h }

  pub Keeps-gets : (f : S → A) → Keeps {E = E} P (gets f)
  unfolding gets
  Keeps-gets f = record { at = λ s h. h }

  pub Keeps-ok_or : (o : Option A) (e : E) → Keeps P (ok_or o e)
  unfolding ok_or
  Keeps-ok_or none e = record { at = λ s h. h }
  Keeps-ok_or (some a) e = record { at = λ s h. h }

  pub Keeps-if :
      (b : Bool) (m n : Exec E S A) → Keeps P m → Keeps P n → Keeps P (if b then m else n)
  Keeps-if true m n km kn = km
  Keeps-if false m n km kn = kn

  pub Keeps-option :
      {B : Type 0} (o : Option B) (m : Exec E S A) (f : B → Exec E S A)
      → Keeps P m
      → ((b : B) → Keeps P (f b))
      → Keeps P (elim o [ none ↦ m | some b ↦ f b ])
  Keeps-option none m f km kf = km
  Keeps-option (some b) m f km kf = kf b

module _ {E S : Type 0} {P : S → Type 0} where
  pub Keeps-raise_if : (test : Bool) (e : E) → Keeps P (raise_if test e)
  unfolding raise_if
  Keeps-raise_if true e = record { at = λ s h. h }
  Keeps-raise_if false e = record { at = λ s h. h }

  pub Keeps-modify : (f : S → S) → ((s : S) → P s → P (f s)) → Keeps {E = E} P (modify f)
  unfolding modify
  Keeps-modify f keep = record { at = keep }

module _ {E S A B : Type 0} {P : S → Type 0} where
  Keeps-continue :
      (r : Result E A) (next : A → Exec E S B)
      → ((a : A) → Keeps P (next a))
      → Keeps P (continue r next)
  unfolding continue
  Keeps-continue (ok a) next rest_keeps = rest_keeps a
  Keeps-continue (err e) next rest_keeps = record { at = λ s h. h }

  pub Keeps-bind :
      (first : Exec E S A) (next : A → Exec E S B)
      → Keeps P first
      → ((a : A) → Keeps P (next a))
      → Keeps P (first >>= next)
  unfolding ◌>>=◌
  Keeps-bind first next first_keeps rest_keeps = record {
    at =
        λ s h. let (r, t) = first s in (Keeps-continue r next rest_keeps).at t (first_keeps.at s h);
  }

  Keeps-caught :
      (r : Result E A) (next : A → Exec E S B) (g : E → Exec E S B)
      → ((a : A) → Keeps P (next a))
      → ((e : E) → Keeps P (g e))
      → Keeps P (caught r next g)
  unfolding caught
  Keeps-caught (ok a) next g rest_keeps kg = rest_keeps a
  Keeps-caught (err e) next g rest_keeps kg = kg e

  pub Keeps-either :
      (first : Exec E S A) (next : A → Exec E S B) (g : E → Exec E S B)
      → Keeps P first
      → ((a : A) → Keeps P (next a))
      → ((e : E) → Keeps P (g e))
      → Keeps P (either first next g)
  unfolding either
  Keeps-either first next g first_keeps rest_keeps kg = record {
    at = λ s h.
        let (r, t) = first s in (Keeps-caught r next g rest_keeps kg).at t (first_keeps.at s h);
  }

module _ {E S B : Type 0} {P : S → Type 0} where
  -- Behind a guard its test is false.
  pub Keeps-guarded :
      (test : Bool) (e : E) (rest : Exec E S B)
      → (test ≡ false → Keeps P rest)
      → Keeps P (raise_if test e >> rest)
  unfolding raise_if ◌>>=◌
  Keeps-guarded true e rest k = record { at = λ s h. h }
  Keeps-guarded false e rest k = record { at = (k refl).at }

module _ {E S A : Type 0} {P : S → Type 0} where
  pub Keeps-for_each :
      (xs : List A) (body : A → Exec E S (Unit {0}))
      → ((x : A) → Keeps P (body x))
      → Keeps P (for_each xs body)
  unfolding for_each
  Keeps-for_each [] body kb = Keeps-pure tt
  Keeps-for_each (x ∷ xs) body kb = Keeps-bind (body x) _ (kb x) (λ u. Keeps-for_each xs body kb)

pub ruleset keeps_rules = (
  Keeps-pure, Keeps-raise, Keeps-lift, Keeps-gets, Keeps-ok_or, Keeps-raise_if, Keeps-if,
  Keeps-option, Keeps-bind, Keeps-either, Keeps-for_each,
)
