-- ===== src/Base/Sets.antt =====
-- Python's `set` as a list, and `sorted`. Only membership is used of a set.
use mathlib.Core.Path.{◌≡◌, refl}
use mathlib.Core.Bool.{Bool, true, false}
use mathlib.Core.List.{List, [], ◌∷◌}
use native.Mathlib.Omega.{arith}
use cogindex.Base.Tests.{if◌then◌else◌}
use cogindex.Base.Equality.{Eq, ◌==◌, contains}

module _ {A : Type 0} ⦃e : Eq A⦄ where
  -- `s.add(a)`
  unfoldable pub add : A → List A → List A
  add a s = if contains a s then s else a ∷ s

  -- `s.update(xs)`
  unfoldable pub update : List A → List A → List A
  unfolding add
  update [] s = s
  update (x ∷ xs) s = update xs (add x s)

  -- `s - xs`
  unfoldable pub minus : List A → List A → List A
  minus [] xs = []
  minus (a ∷ s) xs = let rest = minus s xs in if contains a xs then rest else a ∷ rest

  pub contains-add :
      (b a : A) (s : List A) → contains b (add a s) ≡ (if b == a then true else contains b s)
  unfolding add
  contains-add b a s = ground arith

  pub contains-update :
      (b : A) (xs s : List A)
      → contains b (update xs s) ≡ (if contains b xs then true else contains b s)
  unfolding update
  contains-update b [] s = refl
  contains-update b (x ∷ xs) s = ground (arith, contains-update b xs (add x s), contains-add b x s)

  pub contains-minus :
      (b : A) (s xs : List A)
      → contains b (minus s xs) ≡ (if contains b xs then false else contains b s)
  unfolding minus
  contains-minus b [] xs = ground arith
  contains-minus b (a ∷ s) xs = ground (arith, contains-minus b s xs)

module _ {A : Type 0} (before : A → A → Bool) where
  unfoldable pub insert_in : A → List A → List A
  insert_in a [] = a ∷ []
  insert_in a (x ∷ xs) = let rest = insert_in a xs in if before a x then a ∷ x ∷ xs else x ∷ rest

  -- `sorted(xs, key=...)`, the order being that of the keys
  unfoldable pub sorted : List A → List A
  unfolding insert_in
  sorted [] = []
  sorted (x ∷ xs) = insert_in x (sorted xs)

module _ {A : Type 0} ⦃e : Eq A⦄ (before : A → A → Bool) where
  contains-insert_in :
      (b a : A) (xs : List A)
      → contains b (insert_in before a xs) ≡ (if b == a then true else contains b xs)
  unfolding insert_in
  contains-insert_in b a [] = refl
  contains-insert_in b a (x ∷ xs) = ground (arith, contains-insert_in b a xs)

  pub contains-sorted : (b : A) (xs : List A) → contains b (sorted before xs) ≡ contains b xs
  unfolding sorted
  contains-sorted b [] = refl
  contains-sorted b (x ∷ xs) =
      ground (arith, contains-insert_in b x (sorted before xs), contains-sorted b xs)
