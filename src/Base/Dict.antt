-- ===== src/Base/Dict.antt =====
-- Python's `dict`: an association list in insertion order.
use mathlib.Core.Path.{◌≡◌, refl}
use mathlib.Core.Bool.{true, false}
use mathlib.Core.Option.{Option, none, some}
use mathlib.Core.List.{List, [], ◌∷◌, map}
use native.Mathlib.Omega.{arith}
use cogindex.Base.Tests.{is_some, if◌then◌else◌}
use cogindex.Base.Equality.{Eq, ◌==◌, contains}

abbrev pub Dict : Type 0 → Type 0 → Type 0
Dict K V = List (K × V)

module _ {K V : Type 0} where
  unfoldable pub keys : Dict K V → List K
  keys = map (λ e. e.0)

module _ {K V : Type 0} ⦃e : Eq K⦄ where
  -- `d.get(k)`
  unfoldable pub get : K → Dict K V → Option V
  get k [] = none
  get k ((j, v) ∷ d) = let rest = get k d in if k == j then some v else rest

  -- `d[k] = v`
  unfoldable pub put : K → V → Dict K V → Dict K V
  put k v [] = (k, v) ∷ []
  put k v ((j, w) ∷ d) = let rest = put k v d in if k == j then (j, v) ∷ d else (j, w) ∷ rest

  -- `d.pop(k, None)`. A Python dict has at most one entry of a key; all of them go here.
  unfoldable pub pop : K → Dict K V → Dict K V
  pop k [] = []
  pop k ((j, w) ∷ d) = let rest = pop k d in if k == j then rest else (j, w) ∷ rest

  pub get-put :
      (k j : K) (v : V) (d : Dict K V) → get j (put k v d) ≡ (if j == k then some v else get j d)
  unfolding get put
  get-put k j v [] = refl
  get-put k j v ((i, w) ∷ d) = ground (arith, get-put k j v d)

  pub get-pop : (k j : K) (d : Dict K V) → get j (pop k d) ≡ (if j == k then none else get j d)
  unfolding get pop
  get-pop k j [] = ground arith
  get-pop k j ((i, w) ∷ d) = ground (arith, get-pop k j d)

  -- A key is listed exactly if it has a value.
  pub contains-keys-none : (k : K) (d : Dict K V) → contains k (keys d) ≡ false → get k d ≡ none
  unfolding get keys
  contains-keys-none k [] h = refl
  contains-keys-none k ((j, v) ∷ d) h = ground (arith, contains-keys-none k d)

  pub contains-keys-some :
      (k : K) (v : V) (d : Dict K V) → get k d ≡ some v → contains k (keys d) ≡ true
  unfolding get keys
  contains-keys-some k v [] h = cc
  contains-keys-some k v ((j, w) ∷ d) h = ground (arith, contains-keys-some k v d)

  pub contains-keys_lem : (k : K) (d : Dict K V) → contains k (keys d) ≡ is_some (get k d)
  unfolding get keys
  contains-keys_lem k [] = refl
  contains-keys_lem k ((j, v) ∷ d) = ground (arith, contains-keys_lem k d)
