-- ===== src/Local/Frame/Acting.antt =====
-- What is known once the acting user is bound to a handle.
use cogindex.Base.{
  Option, none, some, Text, list_eq, nat_eq, option_eq, pair_eq, ◌==◌, ==_sound, not, ◌≡◌, refl,
  ◌∙◌, ap, Result, ok, err, runtime_error, refuse, Bool-cases, inl, inr,
}
use cogindex.Base.Exec.{Exec, continue}
use cogindex.Identity.{Uuid}
use cogindex.Runtime.{DatasetHandle}
use cogindex.Testing.Effects.Outcome.{EndsAs, Ends-continue}
use cogindex.Local.Scope.{User, physical_identity_scope}
use cogindex.Local.Sdk.{Cognee}
use cogindex.Local.Binding.{
  Local, call, bind_runtime_scope, resolve_acting_user, bind_user, resolve_if, ensure_resolved,
  bound_user,
}
use cogindex.Local.Frame.{
  ActsIn, IsCall, IsFrame, ends, called_ends, ready_ends, acting_ends, bind_ends, for_user_ends,
  validate_ends,
}

module _ {S : Type 0} (sdk : Cognee S) (h : DatasetHandle) (J : Local S → Type 0)
    (frame : IsFrame sdk h.identity_scope h.name J) where
  abbrev Held : {A : Type 0} → A → Local S → Type 0
  Held a l = J l

  abbrev pub Acting : User → Local S → Type 0
  Acting user l = ActsIn sdk h.identity_scope user × J l

  abbrev pub held : {A : Type 0} (r : Result A) (l : Local S) → J l → EndsAs Held J (r, l)
  held = ends sdk h.identity_scope h.name J frame

  abbrev pub calls :
      {A : Type 0} (m : Exec S A) (l : Local S)
      → IsCall sdk h.identity_scope h.name A m
      → J l
      → EndsAs Held J (call m l)
  calls = called_ends sdk h.identity_scope h.name J frame

  bound_to_scope :
      (u : User) (s : Text) (l : Local S)
      → physical_identity_scope u ≡ ok s
      → J l
      → EndsAs Acting J
          (continue (refuse (not (s == h.identity_scope)) runtime_error) (λ _ l. (ok u, l)) l)
  bound_to_scope u s l e j = elim (Bool-cases (s == h.identity_scope)) [
    | inl q ↦ rw q (e ∙ ap ok (==_sound s h.identity_scope q), j)
    | inr q ↦ rw q j
  ]

  with_scope :
      (u : User) (l : Local S) (r : Result Text)
      → physical_identity_scope u ≡ r
      → J l
      → EndsAs Acting J (
          continue r
            (λ s l.
              continue
                (bind_runtime_scope s l).0
                (λ _ l.
                  continue
                    (refuse (not (s == h.identity_scope)) runtime_error)
                    (λ _ l. (ok u, l))
                    l)
                (bind_runtime_scope s l).1)
            l)
  with_scope u l (err x) e j = j
  with_scope u l (ok s) e j =
      Ends-continue Held J Acting _ _ _ (bind_ends sdk h.identity_scope h.name J frame s l j)
        λ _ l1 j1. bound_to_scope u s l1 e j1

  pub bound_user_ends : (l : Local S) → J l → EndsAs Acting J (bound_user sdk h l)
  unfolding bound_user bind_user resolve_acting_user
  bound_user_ends l j =
      Ends-continue Held J Acting _ _ _ (ready_ends sdk h.identity_scope h.name J frame l j)
        λ _ l1 j1.
          Ends-continue Held J Acting _ _ _
            (acting_ends sdk h.identity_scope h.name J frame l1.user l1 j1)
            λ u l2 j2. with_scope u l2 (physical_identity_scope u) refl j2

  pub resolved_ends :
      (user : User) (l : Local S) → J l → EndsAs Held J (ensure_resolved sdk h user l)
  unfolding ensure_resolved
  resolved_ends user l j =
      Ends-continue Held J Held _ _ _ (validate_ends sdk h.identity_scope h.name J frame h l j)
        λ _ l1 j1. go h.dataset_id l1 j1
    where
      go : (o : Option Uuid) (l : Local S) → J l → EndsAs Held J (resolve_if sdk h user o l)
      go (some id) l j = j
      go none l j =
          for_user_ends sdk h.identity_scope h.name J frame h.name h.tenant user h.identity_scope l
            j

  -- The common beginning of the methods that resolve the handle.
  pub begin_ends :
      {A : Type 0} (f : User → DatasetHandle → Exec (Local S) A)
      → ((user : User) (found : DatasetHandle) (l : Local S)
          → ActsIn sdk h.identity_scope user
          → J l
          → EndsAs Held J (f user found l))
      → (l : Local S) → J l
      → EndsAs Held J (
          continue
            (bound_user sdk h l).0
            (λ user l.
              continue (ensure_resolved sdk h user l).0 (f user) (ensure_resolved sdk h user l).1)
            (bound_user sdk h l).1)
  begin_ends f then_ends l j =
      Ends-continue Acting J Held _ _ _ (bound_user_ends l j) λ user l1 (acts, j1).
        Ends-continue Held J Held _ _ _ (resolved_ends user l1 j1)
          λ found l2 j2. then_ends user found l2 acts j2
