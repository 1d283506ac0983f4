-- ===== src/Local/Frame.antt =====
-- What a method of the runtime can do: the calls it makes, and how it changes its own attributes.
pub mod Acting
pub mod Writing
pub mod Removing
use cogindex.Base.{
  ℕ, List, [], ◌∷◌, Bool, true, false, Option, none, some, Text, list_eq, nat_eq, option_eq,
  pair_eq, ◌==◌, ==_sound, not, ◌≡◌, refl, sym, ◌∙◌, ap, Result, ok, err, PyError, runtime_error,
  value_error, refuse, map, length, Bool-cases, inl, inr, if◌then◌else◌,
}
use cogindex.Base.Exec.{Exec, continue, lift}
use cogindex.Identity.{Uuid}
use cogindex.Runtime.{DatasetHandle, DocumentPayload, StoredDocument}
use cogindex.Spec.Profile.{CognifyProfile}
use cogindex.Testing.Effects.Outcome.{Ends, EndsAs, Ends-continue}
use cogindex.Local.Checks.{validate_dataset_name, validate_tenant}
use cogindex.Local.Scope.{User, Coordinates, user_coordinates, physical_identity_scope, lock_scope}
use cogindex.Local.Datasets.{Dataset, owned_matches, handle_for}
use cogindex.Local.Groups.{GroupKey, Group, groups_of}
use cogindex.Local.Results.{PipelineResult, raise_on_errored_runs}
use cogindex.Local.Sdk.{
  Cognee, DataItem, DataRow, AddOptions, CognifyOptions, ForgetOptions, data_item, cognify_options,
}
use cogindex.Local.Binding.{
  Local, call, bind_runtime_scope, mark_setup, check_scope, assert_storage_roots, setup,
  ensure_ready, acting_user, resolve_acting_user, resolve_dataset_for_user, local_resolve,
  local_validate, bind_user, resolve_if, ensure_resolved, bound_user,
}
use cogindex.Local.Operations.{
  swallow, tolerate, add_group, add_groups, materialized, learn_id, add_payloads, local_add,
  cognify_resolved, local_cognify, forget_all, leave_context, forget_resolved, forget_some,
  forget_documents, teardown_resolved, local_teardown, list_resolved, local_list, local_acquire,
  local_release,
}

module _ {S : Type 0} (sdk : Cognee S) where
  -- The user acts in the scope.
  abbrev pub ActsIn : Text → User → Type 0
  ActsIn scope user = physical_identity_scope user ≡ ok scope

  -- The calls of Cognee that the methods make for a handle with the scope and the name. A call that
  -- writes is made as a user who acts in that scope, and no add can be skipped by Cognee's gates.
  pub data IsCall (scope name : Text) : (A : Type 0) → Exec S A → Type 1 where
    mode : IsCall scope name _ sdk.ensure_local_sdk_mode
    ready : IsCall scope name _ sdk.ensure_databases_ready
    default_user : IsCall scope name _ sdk.resolve_default_user
    same_user : (u : Uuid) → IsCall scope name _ (sdk.resolve_user u)
    datasets : (user : User) → IsCall scope name _ (sdk.list_datasets user)
    width : IsCall scope name _ sdk.validate_embedding_dimensions
    rows : (id : Uuid) (user : User) → IsCall scope name _ (sdk.list_data id user)
    enter : (id owner : Uuid) → IsCall scope name _ (sdk.enter_context id owner)
    exit : (id owner : Uuid) → IsCall scope name _ (sdk.exit_context id owner)
    locked : (text : Text) → IsCall scope name _ (sdk.acquire text)
    unlocked : (text : Text) → IsCall scope name _ (sdk.release text)
    adding :
        (items : List DataItem) (o : AddOptions)
        → ActsIn scope o.user
        → o.incremental_loading ≡ false
        → o.data_cache ≡ false
        → IsCall scope name _ (sdk.add items name o)
    cognifying :
        (id : Uuid) (o : CognifyOptions)
        → ActsIn scope o.user
        → IsCall scope name _ (sdk.cognify id o)
    forgetting : (o : ForgetOptions) → ActsIn scope o.user → IsCall scope name _ (sdk.forget o)
    tearing :
        (id : Uuid) (user : User)
        → ActsIn scope user
        → IsCall scope name _ (sdk.forget_dataset id user)

  -- A property of the runtime and what it wraps that such calls, the setup mark and the first
  -- binding of a scope keep.
  pub record IsFrame (scope name : Text) (J : Local S → Type 0) : Type 1 where
    pub called :
        {A : Type 0} (m : Exec S A) (l : Local S) → IsCall scope name A m → J l → J (call m l).1
    pub marked : (l : Local S) → J l → J (record l { setup_done = true })
    pub bound :
        (l : Local S) (s : Text)
        → l.resolved_identity_scope ≡ none
        → J l
        → J (record l { resolved_identity_scope = some s })

  module _ (scope name : Text) (J : Local S → Type 0) (frame : IsFrame scope name J) where
    abbrev Kept : {A : Type 0} → A → Local S → Type 0
    Kept a l = J l

    pub ends : {A : Type 0} (r : Result A) (l : Local S) → J l → EndsAs Kept J (r, l)
    ends (ok a) l j = j
    ends (err e) l j = j

    pub called_ends :
        {A : Type 0} (m : Exec S A) (l : Local S)
        → IsCall scope name A m
        → J l
        → EndsAs Kept J (call m l)
    called_ends m l c j = ends (m l.sdk).0 (call m l).1 (frame.called m l c j)

    pub assert_ends : (l : Local S) → J l → EndsAs Kept J (assert_storage_roots sdk l)
    unfolding assert_storage_roots
    assert_ends l j = ends _ l j

    pub ready_ends : (l : Local S) → J l → EndsAs Kept J (ensure_ready sdk l)
    unfolding ensure_ready setup mark_setup
    ready_ends l j =
        Ends-continue Kept J Kept _ _ _ (called_ends sdk.ensure_local_sdk_mode l mode j) λ _ l1 j1.
          Ends-continue Kept J Kept _ _ _ (assert_ends l1 j1) λ _ l2 j2. set l2.setup_done l2 j2
      where
        set : (b : Bool) (l : Local S) → J l → EndsAs Kept J (setup sdk b l)
        set true l j = j
        set false l j =
            Ends-continue Kept J Kept _ _ _ (called_ends sdk.ensure_databases_ready l ready j)
              λ _ l1 j1. frame.marked l1 j1

    pub acting_ends : (o : Option User) (l : Local S) → J l → EndsAs Kept J (acting_user sdk o l)
    unfolding acting_user
    acting_ends none l j =
        Ends-continue Kept J Kept _ _ _ (called_ends sdk.resolve_default_user l default_user j)
          λ u l1 j1. Ends-continue Kept J Kept _ _ _ (ends (user_coordinates u) l1 j1) λ _ l2 j2. j2
    acting_ends (some c) l j =
        Ends-continue Kept J Kept _ _ _ (ends (user_coordinates c) l j) λ e l1 j1.
          Ends-continue Kept J Kept _ _ _ (called_ends (sdk.resolve_user e.0) l1 (same_user e.0) j1)
            λ u l2 j2. Ends-continue Kept J Kept _ _ _ (ends (user_coordinates u) l2 j2) λ f l3 j3.
              Ends-continue Kept J Kept _ _ _ (ends (refuse (not (f == e)) runtime_error) l3 j3)
                λ _ l4 j4. j4

    pub bind_ends : (s : Text) (l : Local S) → J l → EndsAs Kept J (bind_runtime_scope s l)
    unfolding bind_runtime_scope
    bind_ends s l j = go l.resolved_identity_scope refl
      where
        go :
            (o : Option Text)
            → l.resolved_identity_scope ≡ o
            → EndsAs {A = Unit {0}} Kept J (elim o [
              | none ↦ (ok tt, record l { resolved_identity_scope = some s })
              | some b ↦ (refuse (not (b == s)) runtime_error, l)
            ])
        go none e = frame.bound l s e j
        go (some b) e = ends _ l j

    pub for_user_ends :
        (n tenant : Text) (user : User) (s : Text) (l : Local S)
        → J l
        → EndsAs Kept J (resolve_dataset_for_user sdk n tenant user s l)
    unfolding resolve_dataset_for_user
    for_user_ends n tenant user s l j =
        Ends-continue Kept J Kept _ _ _ (ends (user_coordinates user) l j) λ c l1 j1.
          Ends-continue Kept J Kept _ _ _
            (called_ends (sdk.list_datasets user) l1 (datasets user) j1)
            λ ds l2 j2.
              Ends-continue Kept J Kept _ _ _ (ends (owned_matches n c ds) l2 j2)
                λ owned l3 j3. ends (handle_for n tenant s owned) l3 j3

    pub resolve-IsFrame :
        (n tenant : Text) (l : Local S) → J l → EndsAs Kept J (local_resolve sdk n tenant l)
    unfolding local_resolve resolve_acting_user
    resolve-IsFrame n tenant l j =
        Ends-continue Kept J Kept _ _ _ (ends (validate_dataset_name n) l j) λ _ l1 j1.
          Ends-continue Kept J Kept _ _ _ (ends (validate_tenant tenant) l1 j1) λ _ l2 j2.
            Ends-continue Kept J Kept _ _ _ (ready_ends l2 j2) λ _ l3 j3.
              Ends-continue Kept J Kept _ _ _ (acting_ends l3.user l3 j3) λ u l4 j4.
                Ends-continue Kept J Kept _ _ _ (ends (physical_identity_scope u) l4 j4) λ s l5 j5.
                  Ends-continue Kept J Kept _ _ _ (bind_ends s l5 j5)
                    λ _ l6 j6. for_user_ends n tenant u s l6 j6

    pub check_ends : (h : DatasetHandle) (l : Local S) → J l → EndsAs Kept J (check_scope h l)
    unfolding check_scope
    check_ends h l j = go l.resolved_identity_scope
      where
        go :
            (o : Option Text)
            → EndsAs {A = Unit {0}} Kept J (elim o [
              | none ↦ (err runtime_error, l)
              | some b ↦ (refuse (not (h.identity_scope == b)) value_error, l)
            ])
        go none = j
        go (some b) = ends _ l j

    pub validate_ends :
        (h : DatasetHandle) (l : Local S) → J l → EndsAs Kept J (local_validate sdk h l)
    unfolding local_validate
    validate_ends h l j =
        Ends-continue Kept J Kept _ _ _ (ends (validate_dataset_name h.name) l j) λ _ l1 j1.
          Ends-continue Kept J Kept _ _ _ (ends (validate_tenant h.tenant) l1 j1) λ _ l2 j2.
            Ends-continue Kept J Kept _ _ _ (check_ends h l2 j2) λ _ l3 j3. assert_ends l3 j3
