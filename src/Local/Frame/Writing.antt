-- ===== src/Local/Frame/Writing.antt =====
-- add_documents and cognify_dataset make only the calls of the frame.
use cogindex.Base.{
  List, [], ◌∷◌, Bool, Option, none, some, list_eq, nat_eq, option_eq, pair_eq, refl, map, length,
}
use cogindex.Identity.{Uuid}
use cogindex.Runtime.{DatasetHandle, DocumentPayload}
use cogindex.Spec.Profile.{CognifyProfile}
use cogindex.Testing.Effects.Outcome.{EndsAs, Ends-continue}
use cogindex.Local.Scope.{User}
use cogindex.Local.Groups.{GroupKey, Group, groups_of}
use cogindex.Local.Results.{raise_on_errored_runs}
use cogindex.Local.Sdk.{Cognee, data_item, cognify_options}
use cogindex.Local.Binding.{Local}
use cogindex.Local.Operations.{
  add_group, add_groups, materialized, learn_id, add_payloads, local_add, cognify_resolved,
  local_cognify,
}
use cogindex.Local.Frame.{ActsIn, IsCall, IsFrame, for_user_ends, validate_ends}
use cogindex.Local.Frame.Acting.{Acting, held, calls, bound_user_ends, begin_ends}

module _ {S : Type 0} (sdk : Cognee S) (h : DatasetHandle) (J : Local S → Type 0)
    (frame : IsFrame sdk h.identity_scope h.name J) where
  abbrev Held : {A : Type 0} → A → Local S → Type 0
  Held a l = J l

  abbrev Bound : User → Local S → Type 0
  Bound = Acting sdk h J frame

  add_groups_ends :
      (user : User)
      → ActsIn sdk h.identity_scope user
      → (gs : List Group) (l : Local S) → J l
      → EndsAs Held J (add_groups sdk h user gs l)
  unfolding add_groups add_group
  add_groups_ends user acts [] l j = j
  add_groups_ends user acts ((key, group) ∷ gs) l j =
      Ends-continue Held J Held _ _ _ one λ _ l1 j1. add_groups_ends user acts gs l1 j1
    where
      one : EndsAs Held J (add_group sdk h user (key, group) l)
      one =
          Ends-continue Held J Held _ _ _
            (calls sdk h J frame sdk.validate_embedding_dimensions l IsCall.width j)
            λ _ l1 j1.
              Ends-continue Held J Held _ _ _
                (calls sdk h J frame (sdk.add (map data_item group) h.name _) l1
                  (IsCall.adding _ _ acts refl refl) j1)
                λ result l2 j2.
                  Ends-continue Held J Held _ _ _
                    (held sdk h J frame
                      (raise_on_errored_runs h.name (some (length group)) h.dataset_id result) l2
                      j2)
                    λ _ l3 j3.
                      Ends-continue Held J Held _ _ _
                        (calls sdk h J frame sdk.validate_embedding_dimensions l3 IsCall.width j3)
                        λ _ l4 j4. j4

  learn_ends :
      (user : User) (o : Option Uuid) (l : Local S) → J l → EndsAs Held J (learn_id sdk h user o l)
  unfolding learn_id
  learn_ends user (some id) l j = j
  learn_ends user none l j =
      Ends-continue Held J Held _ _ _
        (for_user_ends sdk h.identity_scope h.name J frame h.name h.tenant user h.identity_scope l
          j)
        λ found l1 j1. go found found.dataset_id l1 j1
    where
      go :
          (found : DatasetHandle) (o : Option Uuid) (l : Local S)
          → J l
          → EndsAs Held J (materialized sdk found o l)
      go found none l j = j
      go found (some id) l j = j

  -- add_documents makes only the calls of the frame, on every branch.
  pub add-IsFrame :
      (repr_leb : GroupKey → GroupKey → Bool) (payloads : List DocumentPayload) (l : Local S)
      → J l
      → EndsAs Held J (local_add sdk repr_leb h payloads l)
  unfolding local_add add_payloads
  add-IsFrame repr_leb payloads l j =
      Ends-continue Held J Held _ _ _ (validate_ends sdk h.identity_scope h.name J frame h l j)
        λ _ l1 j1. go payloads l1 j1
    where
      go :
          (ps : List DocumentPayload) (l : Local S)
          → J l
          → EndsAs Held J (add_payloads sdk repr_leb h ps l)
      go [] l j = j
      go (p ∷ ps) l j =
          Ends-continue Bound J Held _ _ _ (bound_user_ends sdk h J frame l j) λ user l1 (acts, j1).
            Ends-continue Held J Held _ _ _
              (add_groups_ends user acts (groups_of repr_leb (p ∷ ps)) l1 j1)
              λ _ l2 j2. learn_ends user h.dataset_id l2 j2

  pub cognify-IsFrame :
      (profile : CognifyProfile) (l : Local S) → J l → EndsAs Held J (local_cognify sdk h profile l)
  unfolding local_cognify cognify_resolved
  cognify-IsFrame profile l j =
      Ends-continue Held J Held _ _ _ (validate_ends sdk h.identity_scope h.name J frame h l j)
        (λ _ l1 j1.
          begin_ends sdk h J frame _
            (λ user found l acts j. go user found found.dataset_id l acts j) l1 j1)
    where
      go :
          (user : User) (found : DatasetHandle) (o : Option Uuid) (l : Local S)
          → ActsIn sdk h.identity_scope user
          → J l
          → EndsAs Held J (cognify_resolved sdk found profile user o l)
      go user found none l acts j = j
      go user found (some id) l acts j =
          Ends-continue Held J Held _ _ _
            (calls sdk h J frame sdk.validate_embedding_dimensions l IsCall.width j)
            λ _ l1 j1.
              Ends-continue Held J Held _ _ _
                (calls sdk h J frame (sdk.cognify id (cognify_options profile user)) l1
                  (IsCall.cognifying _ _ acts) j1)
                λ result l2 j2.
                  Ends-continue Held J Held _ _ _
                    (held sdk h J frame (raise_on_errored_runs found.name none (some id) result) l2
                      j2)
                    λ _ l3 j3.
                      Ends-continue Held J Held _ _ _
                        (calls sdk h J frame sdk.validate_embedding_dimensions l3 IsCall.width j3)
                        λ _ l4 j4. j4
