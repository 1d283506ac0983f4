-- ===== src/Testing/Effects/Outcome.antt =====
-- How a computation that may raise ends, in a rule for each way to build one.
use cogindex.Base.{Result, ok, err}
use cogindex.Base.Exec.{Exec, continue}

module _ {S : Type 0} where
  -- The result and the state satisfy `G` if the computation returned, and the state `B` if it
  -- raised.
  abbrev pub Ends : {A : Type 0} → (A → S → Type 0) → (S → Type 0) → Result A → S → Type 0
  Ends G B (ok a) s = G a s
  Ends G B (err e) s = B s

  abbrev pub EndsAs : {A : Type 0} → (A → S → Type 0) → (S → Type 0) → Result A × S → Type 0
  EndsAs G B r = Ends G B r.0 r.1

  pub Ends-continue :
      {A C : Type 0} (G : A → S → Type 0) (B : S → Type 0) (H : C → S → Type 0) (r : Result A)
      (s : S) (f : A → Exec S C)
      → Ends G B r s
      → ((a : A) (t : S) → G a t → EndsAs H B (f a t))
      → EndsAs H B (continue r f s)
  Ends-continue G B H (ok a) s f h k = k a s h
  Ends-continue G B H (err e) s f h k = h

  pub Ends-weaken :
      {A : Type 0} (G H : A → S → Type 0) (B : S → Type 0) (C : S → Type 0) (r : Result A) (s : S)
      → Ends G B r s
      → ((a : A) → G a s → H a s)
      → (B s → C s)
      → Ends H C r s
  Ends-weaken G H B C (ok a) s h k l = k a h
  Ends-weaken G H B C (err e) s h k l = l h
