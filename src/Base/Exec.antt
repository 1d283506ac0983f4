-- ===== src/Base/Exec.antt =====
-- A method that may raise, over the state it changes: it gives a result and the state that is
-- left, whichever way it ends.
use cogindex.Base.Outcome.{PyError, Result, ok, err}
use mathlib.Core.Path.{◌≡◌, refl}

abbrev pub Exec : Type 0 → Type 0 → Type 0
Exec S A = S → Result A × S

module _ {S A : Type 0} where
  abbrev pub pure : A → Exec S A
  pure a s = (ok a, s)

  abbrev pub raise : PyError → Exec S A
  raise e s = (err e, s)

  abbrev pub lift : Result A → Exec S A
  lift r s = (r, s)

module _ {S A B : Type 0} where
  abbrev pub continue : Result A → (A → Exec S B) → Exec S B
  continue (ok a) f s = f a s
  continue (err e) f s = (err e, s)

  infixl 5 ◌>>=◌ ◌>>◌
  abbrev pub ◌>>=◌ : Exec S A → (A → Exec S B) → Exec S B
  ◌>>=◌ m f s = let r = m s in continue r.0 f r.1

  abbrev pub ◌>>◌ : Exec S A → Exec S B → Exec S B
  m >> n = m >>= λ _. n

  -- What returns has returned at each step.
  pub >>=-returns :
      (m : Exec S A) (f : A → Exec S B) {b : B} {s t : S}
      → (m >>= f) s ≡ (ok b, t)
      → (a : A) × (u : S) × (m s ≡ (ok a, u)) × (f a u ≡ (ok b, t))
  >>=-returns m f {b} {s} {t} h = go (m s) refl h
    where
      go :
          (r : Result A × S)
          → m s ≡ r
          → continue r.0 f r.1 ≡ (ok b, t)
          → (a : A) × (u : S) × (m s ≡ (ok a, u)) × (f a u ≡ (ok b, t))
      go (ok a, u) e h = (a, u, e, h)
      go (err x, u) e h = absurd (cc)

  pub lift-returns :
      (r : Result A) (f : A → Exec S B) {b : B} {s t : S}
      → (lift r >>= f) s ≡ (ok b, t)
      → (a : A) × (r ≡ ok a) × (f a s ≡ (ok b, t))
  lift-returns (ok a) f h = (a, refl, h)
  lift-returns (err e) f h = absurd (cc h)
