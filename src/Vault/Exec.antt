-- ===== src/Vault/Exec.antt =====
-- Methods of crates/seance-vault on `&mut self` that return a VaultResult: what was done before an
-- error stays done, so the state comes back beside the error too. `?` is the bind.
pub mod Keeps
pub mod Returns
use seance.Prelude.{
  Bool, Option, none, some, List, [], ◌∷◌, Result, ok, err, if◌then◌else◌, ◌≡◌, refl,
}

abbrev pub Exec : Type 0 → Type 0 → Type 0 → Type 0
Exec E S A = S → Result E A × S

module _ {E S A : Type 0} where
  -- Ok(a)
  unfoldable pub pure : A → Exec E S A
  pure a s = (ok a, s)

  -- return Err(e)
  unfoldable pub raise : E → Exec E S A
  raise e s = (err e, s)

  -- A result that does not depend on the state.
  unfoldable pub lift : Result E A → Exec E S A
  lift r s = (r, s)

  -- A method on `&self` that cannot fail.
  unfoldable pub gets : (S → A) → Exec E S A
  gets f s = (ok (f s), s)

  -- Option::ok_or
  unfoldable pub ok_or : Option A → E → Exec E S A
  unfolding pure raise
  ok_or none e = raise e
  ok_or (some a) e = pure a

module _ {E S : Type 0} where
  -- A write to a field.
  unfoldable pub modify : (S → S) → Exec E S (Unit {0})
  modify f s = (ok tt, f s)

  -- if test { return Err(e); }
  unfoldable pub raise_if : Bool → E → Exec E S (Unit {0})
  unfolding pure raise
  raise_if test e = if test then raise e else pure tt

module _ {E S A B : Type 0} where
  unfoldable pub continue : Result E A → (A → Exec E S B) → Exec E S B
  continue (ok a) f s = f a s
  continue (err e) f s = (err e, s)

  infixl 5 ◌>>=◌ ◌>>◌
  unfoldable pub ◌>>=◌ : Exec E S A → (A → Exec E S B) → Exec E S B
  unfolding continue pure raise lift gets modify raise_if ok_or
  ◌>>=◌ m f s = let (r, t) = m s in continue r f t

  abbrev pub ◌>>◌ : Exec E S A → Exec E S B → Exec E S B
  m >> n = m >>= λ _. n

  -- Where a step returns, the rest runs on what it returns and on the state that it leaves.
  pub bind_ok :
      (m : Exec E S A) (f : A → Exec E S B) (s t : S) (a : A)
      → m s ≡ (ok a, t)
      → (m >>= f) s ≡ f a t
  unfolding ◌>>=◌
  bind_ok m f s t a e = rw e refl

  -- Where a step fails, the rest does not run.
  pub bind_err :
      (m : Exec E S A) (f : A → Exec E S B) (s t : S) (e : E)
      → m s ≡ (err e, t)
      → (m >>= f) s ≡ (err e, t)
  unfolding ◌>>=◌
  bind_err m f s t e p = rw p refl

  -- `match` on a result: the error is handled too, and the state goes on.
  unfoldable pub caught : Result E A → (A → Exec E S B) → (E → Exec E S B) → Exec E S B
  caught (ok a) f g s = f a s
  caught (err e) f g s = g e s

  unfoldable pub either : Exec E S A → (A → Exec E S B) → (E → Exec E S B) → Exec E S B
  unfolding caught
  either m f g s = let (r, t) = m s in caught r f g t

module _ {E S A : Type 0} where
  -- A loop over a list, with `?` in its body.
  unfoldable pub for_each : List A → (A → Exec E S (Unit {0})) → Exec E S (Unit {0})
  unfolding pure
  for_each [] body = pure tt
  for_each (x ∷ xs) body = body x >> for_each xs body

-- iter().map(f).collect::<Result<Vec<_>, _>>(): the first error ends it.
module _ {E B : Type 0} where
  collected : Result E B → Result E (List B) → Result E (List B)
  collected (err e) rest = err e
  collected (ok b) (err e) = err e
  collected (ok b) (ok bs) = ok (b ∷ bs)

  unfoldable pub collect : {A : Type 0} → (A → Result E B) → List A → Result E (List B)
  unfolding collected
  collect f [] = ok []
  collect f (x ∷ xs) = collected (f x) (collect f xs)
