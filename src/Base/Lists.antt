-- ===== src/Base/Lists.antt =====
-- What `all`, `any` and `contains` of Base say about members.
use mathlib.Core.Logic.{inl, inr}
use cogindex.Base.Tests.{all, any, Bool-cases}
use cogindex.Base.Equality.{Eq, contains}
use mathlib.Core.Path.{◌≡◌}
use mathlib.Core.Bool.{Bool, true, false}
use mathlib.Core.List.{List, [], ◌∷◌}
use native.Mathlib.Omega.{arith}

module _ {A : Type 0} ⦃e : Eq A⦄ (test : A → Bool) where
  pub all-contains :
      (x : A) (xs : List A) → all test xs ≡ true → contains x xs ≡ true → test x ≡ true
  all-contains x [] h c = cc
  all-contains x (y ∷ ys) h c = ground (arith, all-contains x ys)

  pub any-witness :
      (xs : List A) → any test xs ≡ true → (x : A) × (contains x xs ≡ true) × (test x ≡ true)
  any-witness [] h = absurd (cc)
  any-witness (y ∷ ys) h = elim (Bool-cases (test y)) [
    | inl p ↦ (y, ground arith, p)
    | inr p ↦ let (x, c, t) = any-witness ys (ground arith) in (x, ground arith, t)
  ]

  pub not_all-witness :
      (xs : List A) → all test xs ≡ false → (x : A) × (contains x xs ≡ true) × (test x ≡ false)
  not_all-witness [] h = absurd (cc)
  not_all-witness (y ∷ ys) h = elim (Bool-cases (test y)) [
    | inr p ↦ (y, ground arith, p)
    | inl p ↦ let (x, c, t) = not_all-witness ys (ground arith) in (x, ground arith, t)
  ]

  pub any-contains :
      (x : A) (xs : List A) → contains x xs ≡ true → test x ≡ true → any test xs ≡ true
  any-contains x [] c h = cc
  any-contains x (y ∷ ys) c h = ground (arith, any-contains x ys)
