-- ===== src/Core/Actor/Monad.antt =====
-- Handlers of the actor: they change the actor's state and may fail. What was changed before a
-- failure stays changed.
use pereprava.Prelude.{◌≡◌, refl, Option, none, some}
use pereprava.Core.Error.{Error, Result, ok, err}

abbrev pub Act {ℓ} : Type ℓ → Type ℓ → Type ℓ
Act S A = S → Result A × S

module _ {ℓ} {S A : Type ℓ} where
  abbrev pub pure : A → Act S A
  pure a s = (ok a, s)

  abbrev pub fail : Error → Act S A
  fail e s = (err e, s)

  abbrev pub lift : Result A → Act S A
  lift r s = (r, s)

  -- `ok_or(e)?`
  abbrev pub ok_or : Option A → Error → Act S A
  ok_or none e = fail e
  ok_or (some a) e = pure a

module _ {ℓ} {S A B : Type ℓ} where
  abbrev pub continue : Result A × S → (A → Act S B) → Result B × S
  continue (ok a, s) f = f a s
  continue (err e, s) f = (err e, s)

  infixl 5 ◌>>=◌ ◌>>◌
  abbrev pub ◌>>=◌ : Act S A → (A → Act S B) → Act S B
  ◌>>=◌ m f s = continue (m s) f

  abbrev pub ◌>>◌ : Act S A → Act S B → Act S B
  m >> n = m >>= λ _. n

  -- A block that succeeded, step by step.
  pub >>=-eq-ok :
      (m : Act S A) (f : A → Act S B) (s s' : S) (b : B)
      → (m >>= f) s ≡ (ok b, s')
      → (a : A) × (t : S) × (m s ≡ (ok a, t)) × (f a t ≡ (ok b, s'))
  >>=-eq-ok m f s s' b h = go (m s) refl h
    where
      go :
          (r : Result A × S)
          → m s ≡ r
          → continue r f ≡ (ok b, s')
          → (a : A) × (t : S) × (m s ≡ (ok a, t)) × (f a t ≡ (ok b, s'))
      go (ok a, t) e k = (a, t, e, k)
      go (err x, t) e k = absurd (cc)
