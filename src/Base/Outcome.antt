-- ===== src/Base/Outcome.antt =====
-- Exceptions as values: `Result A` is the outcome of code that returns an `A` or raises.
use Prim.Native.Nat.{ℕ}
use mathlib.Core.Bool.{Bool, true, false}
use mathlib.Core.List.{List, [], ◌∷◌}
use mathlib.Core.Path.{◌≡◌, refl}

-- The exception's class; messages are not modelled.
pub data PyError : Type 0 where
  type_error value_error runtime_error : PyError
  compatibility_error pipeline_error lock_timeout timeout_error injected_fault : PyError
  -- an exception of code outside this repository, by its class
  foreign : ℕ → PyError

pub data Result {ℓ} (A : Type ℓ) : Type ℓ where
  err : PyError → Result A
  ok : A → Result A

-- `if bad: raise e`
abbrev pub refuse : Bool → PyError → Result (Unit {0})
refuse true e = err e
refuse false e = ok tt

module _ {ℓ κ} {A : Type ℓ} {B : Type κ} where
  infixl 5 ◌>>=◌
  abbrev pub ◌>>=◌ : Result A → (A → Result B) → Result B
  err e >>= rest = err e
  ok a >>= rest = rest a

  -- What returns has returned at each step.
  pub >>=-eq-ok :
      (m : Result A) (rest : A → Result B) {b : B}
      → (m >>= rest) ≡ ok b
      → (a : A) × (m ≡ ok a) × (rest a ≡ ok b)
  >>=-eq-ok (err e) rest h = cc
  >>=-eq-ok (ok a) rest h = (a, refl, h)

  -- A loop that may raise, collecting its results.
  abbrev pub traverse : (A → Result B) → List A → Result (List B)
  traverse f [] = ok []
  traverse f (x ∷ xs) = elim (f x) [
    | err e ↦ err e
    | ok y ↦ elim (traverse f xs) [ err e ↦ err e | ok ys ↦ ok (y ∷ ys) ]
  ]

infixl 5 ◌>>◌
abbrev pub ◌>>◌ {ℓ} : {B : Type ℓ} → Result (Unit {0}) → Result B → Result B
check >> rest = check >>= λ done. rest

pub ok-injective {ℓ} : {A : Type ℓ} (a b : A) → ◌≡◌ {A = Result A} (ok a) (ok b) → a ≡ b
ok-injective a b h = cc
