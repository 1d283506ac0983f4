-- ===== src/Local/Frame/Removing.antt =====
-- The methods that remove, list and lock make only the calls of the frame.
use cogindex.Base.{
  List, [], ◌∷◌, Bool, Option, none, some, list_eq, nat_eq, option_eq, pair_eq, Result, ok, err,
}
use cogindex.Base.Exec.{Exec}
use cogindex.Identity.{Uuid}
use cogindex.Runtime.{DatasetHandle}
use cogindex.Testing.Effects.Outcome.{Ends, EndsAs, Ends-continue}
use cogindex.Local.Scope.{User, user_coordinates, lock_scope}
use cogindex.Local.Sdk.{Cognee}
use cogindex.Local.Binding.{Local, call}
use cogindex.Local.Operations.{
  swallow, tolerate, forget_all, leave_context, forget_resolved, forget_some, forget_documents,
  teardown_resolved, local_teardown, list_resolved, local_list, local_acquire, local_release,
}
use cogindex.Local.Frame.{ActsIn, IsCall, IsFrame, ends, validate_ends}
use cogindex.Local.Frame.Acting.{Acting, held, calls, begin_ends}

module _ {S : Type 0} (sdk : Cognee S) (h : DatasetHandle) (J : Local S → Type 0)
    (frame : IsFrame sdk h.identity_scope h.name J) where
  abbrev Held : {A : Type 0} → A → Local S → Type 0
  Held a l = J l

  abbrev Bound : User → Local S → Type 0
  Bound = Acting sdk h J frame

  tolerated :
      (m : Exec S (Unit {0})) (l : Local S)
      → IsCall sdk h.identity_scope h.name _ m
      → J l
      → EndsAs Held J (tolerate sdk m l)
  tolerated m l c j =
      ends sdk h.identity_scope h.name J frame (swallow sdk.is_missing (m l.sdk).0) _
        (frame.called m l c j)

  forget_all_ends :
      (user : User)
      → ActsIn sdk h.identity_scope user
      → (id : Uuid) (memory_only : Bool) (us : List Uuid) (l : Local S) → J l
      → EndsAs Held J (forget_all sdk user id memory_only us l)
  unfolding forget_all
  forget_all_ends user acts id memory_only [] l j = j
  forget_all_ends user acts id memory_only (u ∷ us) l j =
      Ends-continue Held J Held _ _ _ (tolerated (sdk.forget _) l (IsCall.forgetting _ acts) j)
        λ _ l1 j1. forget_all_ends user acts id memory_only us l1 j1

  leave_ends :
      (id owner : Uuid) (r : Result (Unit {0})) (l : Local S)
      → J l
      → EndsAs Held J (leave_context sdk id owner r l)
  leave_ends id owner r l j =
      go (call (sdk.exit_context id owner) l).0 (call (sdk.exit_context id owner) l).1
        (frame.called (sdk.exit_context id owner) l (IsCall.exit id owner) j)
    where
      go :
          (left : Result (Unit {0})) (t : Local S)
          → J t
          → EndsAs {A = Unit {0}} Held J (elim left [ ok done ↦ (r, t) | err e ↦ (err e, t) ])
      go (ok done) t k = ends sdk h.identity_scope h.name J frame r t k
      go (err e) t k = k

  kept_after : {A : Type 0} (r : Result A) (l : Local S) → Ends Held J r l → J l
  kept_after (ok a) l j = j
  kept_after (err e) l j = j

  forget_resolved_ends :
      (memory_only : Bool) (ids : List Uuid) (user : User) (o : Option Uuid) (l : Local S)
      → ActsIn sdk h.identity_scope user
      → J l
      → EndsAs Held J (forget_resolved sdk memory_only ids user o l)
  unfolding forget_resolved
  forget_resolved_ends memory_only ids user none l acts j = j
  forget_resolved_ends memory_only ids user (some id) l acts j =
      Ends-continue Held J Held _ _ _ (held sdk h J frame (user_coordinates user) l j) λ c l1 j1.
        Ends-continue Held J Held _ _ _
          (calls sdk h J frame (sdk.enter_context id c.0) l1 (IsCall.enter id c.0) j1)
          λ _ l2 j2.
            leave_ends id c.0 _ _
              (kept_after _ _ (forget_all_ends user acts id memory_only ids l2 j2))

  -- purge_document_memory and delete_documents
  pub forget-IsFrame :
      (memory_only : Bool) (ids : List Uuid) (l : Local S)
      → J l
      → EndsAs Held J (forget_documents sdk memory_only h ids l)
  unfolding forget_documents
  forget-IsFrame memory_only ids l j =
      Ends-continue Held J Held _ _ _ (validate_ends sdk h.identity_scope h.name J frame h l j)
        λ _ l1 j1. go ids l1 j1
    where
      go :
          (ids : List Uuid) (l : Local S)
          → J l
          → EndsAs Held J (forget_some sdk memory_only h ids l)
      go [] l j = j
      go (u ∷ us) l j =
          begin_ends sdk h J frame _
            (λ user found l acts j.
              forget_resolved_ends memory_only (u ∷ us) user found.dataset_id l acts j)
            l j

  pub teardown-IsFrame : (l : Local S) → J l → EndsAs Held J (local_teardown sdk h l)
  unfolding local_teardown
  teardown-IsFrame l j =
      Ends-continue Held J Held _ _ _ (validate_ends sdk h.identity_scope h.name J frame h l j)
        (λ _ l1 j1.
          begin_ends sdk h J frame _ (λ user found l acts j. go user found.dataset_id l acts j) l1
            j1)
    where
      go :
          (user : User) (o : Option Uuid) (l : Local S)
          → ActsIn sdk h.identity_scope user
          → J l
          → EndsAs Held J (teardown_resolved sdk user o l)
      go user none l acts j = j
      go user (some id) l acts j =
          tolerated (sdk.forget_dataset id user) l (IsCall.tearing id user acts) j

  pub list-IsFrame : (l : Local S) → J l → EndsAs Held J (local_list sdk h l)
  unfolding local_list
  list-IsFrame l j =
      Ends-continue Held J Held _ _ _ (validate_ends sdk h.identity_scope h.name J frame h l j)
        (λ _ l1 j1.
          begin_ends sdk h J frame _ (λ user found l acts j. go user found.dataset_id l j) l1 j1)
    where
      go :
          (user : User) (o : Option Uuid) (l : Local S)
          → J l
          → EndsAs Held J (list_resolved sdk user o l)
      go user none l j = j
      go user (some id) l j =
          Ends-continue Held J Held _ _ _
            (calls sdk h J frame (sdk.list_data id user) l (IsCall.rows id user) j) λ rows l1 j1. j1

  pub acquire-IsFrame : (l : Local S) → J l → EndsAs Held J (local_acquire sdk h l)
  unfolding local_acquire
  acquire-IsFrame l j =
      Ends-continue Held J Held _ _ _ (validate_ends sdk h.identity_scope h.name J frame h l j)
        λ _ l1 j1. calls sdk h J frame (sdk.acquire (lock_scope h)) l1 (IsCall.locked _) j1

  pub release-IsFrame : (l : Local S) → J l → EndsAs Held J (local_release sdk h l)
  unfolding local_release
  release-IsFrame l j = calls sdk h J frame (sdk.release (lock_scope h)) l (IsCall.unlocked _) j
