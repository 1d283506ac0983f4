-- ===== src/Local/Live/Shared.antt =====
-- The live runtimes of a process share their storage roots and their default lock provider.
use cogindex.Base.{
  ℕ, suc, zero, List, [], ◌∷◌, Bool, true, false, Text, list_eq, nat_eq, pair_eq, ◌==◌, ==_sound,
  ◌≡◌, refl, any, Result, ok, err, Bool-cases, inl, inr,
}
use cogindex.Local.Checks.{Roots, normalize_storage_roots}
use cogindex.Local.Sdk.{Cognee}
use cogindex.Local.Live.{
  Provider, own, default_of, LiveRuntime, Process, conflicts, provider_of, collected, configured,
  joined, prepared, admitted, construct, Happening, constructed, ended, changed, happen, happen_all,
}

-- The provider is the caller's or the default one of the generation.
abbrev pub IsCurrent : ℕ → Provider → Type 0
IsCurrent g own = Unit
IsCurrent g (default_of n) = n ≡ g

-- All of the runtimes have the roots, and a provider of the generation or their own.
abbrev pub AllShare : Roots → ℕ → List LiveRuntime → Type 0
AllShare roots g [] = Unit
AllShare roots g (r ∷ rs) = (r.roots ≡ roots) × IsCurrent g r.provider × AllShare roots g rs

-- There are roots that all live runtimes have, and their default providers are the current one.
abbrev pub IsShared : {S : Type 0} → Process S → Type 0
IsShared p = (roots : Roots) × AllShare roots p.generation p.live

AllShare-collected :
    (roots : Roots) (g n : ℕ) (rs : List LiveRuntime)
    → AllShare roots g rs
    → AllShare roots g (collected n rs)
unfolding collected
AllShare-collected roots g n [] h = h
AllShare-collected roots g zero (r ∷ rs) h = h.2
AllShare-collected roots g (suc n) (r ∷ rs) h = (h.0, h.1, AllShare-collected roots g n rs h.2)

-- Without a conflict the roots of the live runtimes are the new ones.
no_conflict :
    (old roots : Roots) (g : ℕ) (rs : List LiveRuntime)
    → any (conflicts roots) rs ≡ false
    → AllShare old g rs
    → AllShare roots g rs
no_conflict old roots g [] h s = tt
no_conflict old roots g (r ∷ rs) h s = elim (Bool-cases (r.roots == roots)) [
  | inl q ↦ (==_sound r.roots roots q, s.1, no_conflict old roots g rs (rw q at h) s.2)
  | inr q ↦ absurd (cc (rw q at h))
]

provider-IsCurrent : (b : Bool) (g : ℕ) → IsCurrent g (provider_of b g)
provider-IsCurrent true g = tt
provider-IsCurrent false g = refl

module _ {S : Type 0} (sdk : Cognee S) (absolute : Text → Text) where
  -- The first live runtime, whether the configuration of the storage returned or raised
  joined-first :
      (has_provider : Bool) (roots : Roots) (p : Process S) (r : Result (Unit {0})) (t : S)
      → p.live ≡ []
      → IsShared p
      → IsShared (joined sdk absolute has_provider roots r (configured sdk absolute r t p)).1
  joined-first has_provider roots p (err e) t none_live s = s
  joined-first has_provider roots p (ok x) t none_live s =
      (roots, (refl, provider-IsCurrent has_provider _, rw none_live tt))

  prepared-IsShared :
      (has_provider : Bool) (roots : Roots) (p : Process S) (live : List LiveRuntime)
      → p.live ≡ live
      → any (conflicts roots) live ≡ false
      → IsShared p
      → IsShared
          (joined sdk absolute has_provider roots
            (prepared sdk absolute live roots p).0
            (prepared sdk absolute live roots p).1).1
  unfolding prepared
  prepared-IsShared has_provider roots p [] e c s =
      joined-first has_provider roots p (sdk.configure_storage roots p.sdk).0
        (sdk.configure_storage roots p.sdk).1 e s
  prepared-IsShared has_provider roots p (r ∷ rs) e c (old, s) = (
    roots,
    (
      refl,
      provider-IsCurrent has_provider _,
      rw e (no_conflict old roots _ (r ∷ rs) c (rw e at s)),
    ),
  )

  admitted-IsShared :
      (has_provider : Bool) (roots : Roots) (p : Process S)
      → IsShared p
      → IsShared (admitted sdk absolute has_provider roots p).1
  unfolding admitted
  admitted-IsShared has_provider roots p s = elim (Bool-cases (any (conflicts roots) p.live)) [
    | inl c ↦ rw c s
    | inr c ↦ rw c (prepared-IsShared has_provider roots p p.live refl c s)
  ]

  happen-IsShared :
      (e : Happening sdk absolute) (p : Process S) → IsShared p → IsShared (happen sdk absolute e p)
  unfolding happen construct
  happen-IsShared (constructed data_root system_root has_provider) p s =
      go (normalize_storage_roots absolute data_root system_root)
    where
      go :
          (r : Result Roots)
          → (let done : Result LiveRuntime × Process S = elim r [
            | err e ↦ (err e, p)
            | ok roots ↦ admitted sdk absolute has_provider roots p
          ] in
              IsShared done.1)
      go (err e) = s
      go (ok roots) = admitted-IsShared has_provider roots p s
  happen-IsShared (ended n) p (roots, s) = (roots, AllShare-collected roots p.generation n p.live s)
  happen-IsShared (changed f) p s = s

  -- If all live runtimes of a process have the same storage roots, and those without a lock provider
  -- of their own the current default one, then it is so after any sequence of constructions that
  -- succeed or fail, ends of runtimes and changes of Cognee's state.
  pub happen_all-IsShared :
      (es : List (Happening sdk absolute)) (p : Process S)
      → IsShared p
      → IsShared (happen_all sdk absolute es p)
  unfolding happen_all
  happen_all-IsShared [] p s = s
  happen_all-IsShared (e ∷ es) p s = happen_all-IsShared es _ (happen-IsShared e p s)
