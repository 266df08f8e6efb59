-- ===== src/Vault/Exec/Returns.antt =====
-- What a method of crates/seance-vault that returned has done: its steps returned too.
use seance.Prelude.{
  Bool, true, false, List, [], ◌∷◌, Result, ok, err, All, ◌≡◌, refl, ap, sym, subst, ◌∙◌, inl, inr,
  Bool-cases,
}
use seance.Vault.Exec.{Exec, raise_if, continue, ◌>>=◌, bind_ok, bind_err, for_each}

-- The first step of a method that returned, and the return of the rest.
pub record Steps {E S A B : Type 0} (m : Exec E S A) (f : A → Exec E S B) (s : S) (b : B)
    : Type 0 where
  pub value : A
  pub state : S
  pub step : m s ≡ (ok value, state)
  pub rest : (f value state).0 ≡ ok b
  pub whole : (m >>= f) s ≡ f value state

abbrev IsOk : {E A : Type 0} → Result E A → Type 0
IsOk (ok a) = Unit
IsOk (err e) = ⊥

pub err_not_ok : {E A : Type 0} (e : E) (a : A) → ¬ (err e ≡ ok a)
err_not_ok e a h = subst IsOk (sym h) tt

module _ {E S A B : Type 0} (m : Exec E S A) (f : A → Exec E S B) (s : S) (b : B) where
  steps : (x : Result E A × S) → m s ≡ x → (continue x.0 f x.1).0 ≡ ok b → Steps m f s b
  unfolding continue ◌>>=◌
  steps (ok a, t) e h = record {
    value = a;
    state = t;
    step = e;
    rest = h;
    whole = bind_ok m f s t a e;
  }
  steps (err e, t) p h = absurd (err_not_ok e b h)

  pub bind-Steps : ((m >>= f) s).0 ≡ ok b → Steps m f s b
  unfolding ◌>>=◌
  bind-Steps h = steps (m s) refl h

module _ {E S : Type 0} where
  raise_if_fails : (test : Bool) (e : E) (s : S) → test ≡ true → raise_if test e s ≡ (err e, s)
  unfolding raise_if
  raise_if_fails test e s h = rw h refl

  raise_if_passes : (test : Bool) (e : E) (s : S) → test ≡ false → raise_if test e s ≡ (ok tt, s)
  unfolding raise_if
  raise_if_passes test e s h = rw h refl

  -- A loop of guards that passed them all.
  pub for_each-passed :
      {A : Type 0} (test : A → Bool) (e : A → E) (xs : List A) (s : S)
      → (for_each xs (λ x. raise_if (test x) (e x)) s).0 ≡ ok tt
      → All (λ x. test x ≡ false) xs × (for_each xs (λ x. raise_if (test x) (e x)) s ≡ (ok tt, s))
  unfolding for_each
  for_each-passed test e [] s h = (tt, refl)
  for_each-passed test e (x ∷ xs) s h = elim (Bool-cases (test x)) [
    | inl fails ↦
        let stopped : for_each (x ∷ xs) (λ y. raise_if (test y) (e y)) s ≡ (err (e x), s) =
          bind_err _ _ s s (e x) (raise_if_fails (test x) (e x) s fails) in
        absurd (err_not_ok (e x) tt (sym (ap (λ r. r.0) stopped) ∙ h))
    | inr passes ↦
        let on : for_each (x ∷ xs) (λ y. raise_if (test y) (e y)) s
            ≡ for_each xs (λ y. raise_if (test y) (e y)) s =
          bind_ok _ _ s s tt (raise_if_passes (test x) (e x) s passes) in
        let r = for_each-passed test e xs s (sym (ap (λ r. r.0) on) ∙ h) in
        ((passes, r.0), on ∙ r.1)
  ]
