-- ===== src/Engine/Sync/Applied.antt =====
-- The application of a round's actions.
use cogindex.Base.{List, [], ◌∷◌, list_eq, nat_eq, ◌≡◌, refl, Result, ok, err}
use cogindex.Identity.{Primitives}
use cogindex.Target.Statediff.{Diff}
use cogindex.Target.Reconcile.{DocumentAction, DocumentHandler}
use cogindex.Target.Apply.{Batch, empty_batch, collect, settle, apply, with_lock, run_phases}
use cogindex.Testing.Faults.{Fake}
use cogindex.Testing.Fake.{fake_runtime}
use cogindex.Testing.Effects.Outcome.{EndsAs, Ends-weaken}
use cogindex.Testing.Effects.Pointwise.{View, Is}
use cogindex.Engine.Batch.{IsKept, Raised, after_batch, with_lock-Ends}
use cogindex.Engine.Round.{apply_actions}

module _ (P : Primitives) (diff : Diff) (handler : DocumentHandler) (g : View)
    (Keeps : View → Type 0) where
  -- The actions have been collected in a batch, which has been applied.
  abbrev pub Applied : List DocumentAction → Fake → Type 0
  Applied actions s =
      (b : Batch) × (collect actions empty_batch ≡ ok b)
      × Is handler.handle (after_batch P handler.handle g (settle b) handler.profile Keeps) s

  abbrev pub Left : Fake → Type 0
  Left s = (g' : View) × Keeps g' × Is handler.handle g' s

  apply-Applied :
      (actions : List DocumentAction) (s : Fake)
      → Keeps g
      → ((b : Batch)
          → collect actions empty_batch ≡ ok b
          → IsKept P handler.handle g (settle b) handler.profile Keeps)
      → Is handler.handle g s
      → EndsAs (λ _. Applied actions) Left (apply (fake_runtime P) handler actions s)
  unfolding apply
  apply-Applied actions s keeps kept i = go (collect actions empty_batch) refl
    where
      go :
          (r : Result Batch)
          → collect actions empty_batch ≡ r
          → EndsAs {A = Unit {0}}
              (λ _. Applied actions)
              Left
              (elim r [
                | err e ↦ (err e, s)
                | ok b ↦
                    with_lock
                      (fake_runtime P)
                      handler.handle
                      (run_phases (fake_runtime P) handler.handle handler.profile (settle b))
                      s
              ])
      go (err e) q = (g, keeps, i)
      go (ok b) q =
          Ends-weaken
            (λ _.
              Is handler.handle (after_batch P handler.handle g (settle b) handler.profile Keeps))
            (λ _. Applied actions) (Raised P handler.handle g (settle b) handler.profile Keeps) Left
            _ _ (with_lock-Ends P handler.handle g (settle b) handler.profile Keeps (kept b q) s i)
            (λ x j. (b, q, j)) (λ j. j)

  -- The actions are applied, or what is left is kept; no actions leave everything as it is.
  pub apply_actions-Applied :
      (actions : List DocumentAction) (s : Fake)
      → Keeps g
      → ((b : Batch)
          → collect actions empty_batch ≡ ok b
          → IsKept P handler.handle g (settle b) handler.profile Keeps)
      → Is handler.handle g s
      → EndsAs (λ _. Applied actions) Left (apply_actions P diff handler actions s)
  unfolding apply_actions collect settle
  apply_actions-Applied [] s keeps kept i = (empty_batch, refl, i)
  apply_actions-Applied (a ∷ actions) s keeps kept i = apply-Applied (a ∷ actions) s keeps kept i
