-- ===== src/Local/Operations.antt =====
-- The methods of LocalCogneeRuntime.
use cogindex.Base.{
  List, [], ◌∷◌, Bool, true, false, Option, none, some, Text, codes, text_leb, length, list_eq,
  nat_eq, pair_eq, option_eq, ◌==◌, map, Result, ok, err, PyError, pipeline_error, if◌then◌else◌,
}
use cogindex.Base.Dict
use cogindex.Base.Dict.{Dict}
use cogindex.Base.Exec.{Exec, pure, raise, lift, ◌>>=◌, ◌>>◌}
use cogindex.Base.Sets
use cogindex.Identity.{Uuid}
use cogindex.Runtime.{DatasetHandle, DocumentPayload, StoredDocument, CogneeRuntime}
use cogindex.Spec.Profile.{CognifyProfile}
use cogindex.Local.Scope.{User, user_coordinates, lock_scope}
use cogindex.Local.Groups.{GroupKey, Group, groups_of}
use cogindex.Local.Results.{raise_on_errored_runs}
use cogindex.Local.Binding.{
  Local, call, resolve_dataset_for_user, local_resolve, local_validate, bound_user, ensure_resolved,
}
use cogindex.Local.Sdk.{Cognee, DataRow, data_item, cognify_options}

abbrev pub cognify_pipeline_name : Text
cognify_pipeline_name = codes "cognify_pipeline"

abbrev pub cognify_complete_status : Text
cognify_complete_status = codes "DATA_ITEM_PROCESSING_COMPLETED"

-- `.get(COGNIFY_PIPELINE_NAME, {}).get(dataset_id_str)`
unfoldable pub status_of : Uuid → Option (Dict Text Text) → Option Text
unfolding Dict.get
status_of id none = none
status_of id (some statuses) = Dict.get id statuses

-- `except compat_info.dataset_missing_errors`
abbrev pub swallow : (PyError → Bool) → Result (Unit {0}) → Result (Unit {0})
swallow is_missing (ok done) = ok tt
swallow is_missing (err e) = if is_missing e then ok tt else err e

module _ {S : Type 0} (sdk : Cognee S) where
  unfoldable pub add_group : DatasetHandle → User → Group → Exec (Local S) (Unit {0})
  unfolding raise_on_errored_runs data_item
  add_group h user (key, group) = do
    width ← call sdk.validate_embedding_dimensions
    result ← call (
        sdk.add (map data_item group) h.name (record {
          incremental_loading = false;
          data_cache = false;
          node_set = key.0;
          importance_weight = key.1;
          dataset_id = h.dataset_id;
          user = user;
        }))
    lift (raise_on_errored_runs h.name (some (length group)) h.dataset_id result)
    again ← call sdk.validate_embedding_dimensions
    pure tt

  unfoldable pub add_groups : DatasetHandle → User → List Group → Exec (Local S) (Unit {0})
  unfolding add_group
  add_groups h user [] = pure tt
  add_groups h user (g ∷ gs) = do add_group h user g; add_groups h user gs

  abbrev pub materialized : DatasetHandle → Option Uuid → Exec (Local S) DatasetHandle
  materialized h none = raise pipeline_error
  materialized h (some id) = pure h

  -- The identity of a dataset that the first add has made.
  unfoldable pub learn_id : DatasetHandle → User → Option Uuid → Exec (Local S) DatasetHandle
  unfolding resolve_dataset_for_user
  learn_id h user (some id) = pure h
  learn_id h user none = do
    found ← resolve_dataset_for_user sdk h.name h.tenant user h.identity_scope
    materialized found found.dataset_id

  unfoldable pub add_payloads :
      (GroupKey → GroupKey → Bool)
      → DatasetHandle
      → List DocumentPayload
      → Exec (Local S) DatasetHandle
  unfolding bound_user groups_of add_groups learn_id
  add_payloads repr_leb h [] = pure h
  add_payloads repr_leb h (p ∷ ps) = do
    user ← bound_user sdk h
    add_groups h user (groups_of repr_leb (p ∷ ps))
    learn_id h user h.dataset_id

  unfoldable pub local_add :
      (GroupKey → GroupKey → Bool)
      → DatasetHandle
      → List DocumentPayload
      → Exec (Local S) DatasetHandle
  unfolding local_validate add_payloads
  local_add repr_leb h payloads = do local_validate sdk h; add_payloads repr_leb h payloads

  unfoldable pub cognify_resolved :
      DatasetHandle → CognifyProfile → User → Option Uuid → Exec (Local S) (Unit {0})
  unfolding raise_on_errored_runs
  cognify_resolved h profile user none = pure tt
  cognify_resolved h profile user (some id) = do
    width ← call sdk.validate_embedding_dimensions
    result ← call (sdk.cognify id (cognify_options profile user))
    lift (raise_on_errored_runs h.name none (some id) result)
    again ← call sdk.validate_embedding_dimensions
    pure tt

  unfoldable pub local_cognify : DatasetHandle → CognifyProfile → Exec (Local S) (Unit {0})
  unfolding local_validate bound_user ensure_resolved cognify_resolved
  local_cognify h profile = do
    local_validate sdk h
    user ← bound_user sdk h
    found ← ensure_resolved sdk h user
    cognify_resolved found profile user found.dataset_id

  -- A call that may find the dataset gone.
  abbrev pub tolerate : Exec S (Unit {0}) → Exec (Local S) (Unit {0})
  tolerate m l = let r = m l.sdk in (swallow sdk.is_missing r.0, record l { sdk = r.1 })

  unfoldable pub forget_all : User → Uuid → Bool → List Uuid → Exec (Local S) (Unit {0})
  forget_all user id memory_only [] = pure tt
  forget_all user id memory_only (u ∷ us) = do
    tolerate (
        sdk.forget
          (record { data_id = u; dataset_id = id; memory_only = memory_only; user = user }))
    forget_all user id memory_only us

  -- The end of `async with`: an exception of the exit takes the place of the body's.
  abbrev pub leave_context : Uuid → Uuid → Result (Unit {0}) → Exec (Local S) (Unit {0})
  leave_context id owner r l =
      let left = call (sdk.exit_context id owner) l in
      elim left.0 [ ok done ↦ (r, left.1) | err e ↦ (err e, left.1) ]

  unfoldable pub forget_resolved : Bool → List Uuid → User → Option Uuid → Exec (Local S) (Unit {0})
  unfolding forget_all user_coordinates
  forget_resolved memory_only ids user none = pure tt
  forget_resolved memory_only ids user (some id) = do
    owner ← lift (user_coordinates user)
    call (sdk.enter_context id owner.0)
    λ l. (let r = forget_all user id memory_only ids l in leave_context id owner.0 r.0 r.1)

  abbrev pub forget_some : Bool → DatasetHandle → List Uuid → Exec (Local S) (Unit {0})
  forget_some memory_only h [] = pure tt
  forget_some memory_only h (u ∷ us) = do
    user ← bound_user sdk h
    found ← ensure_resolved sdk h user
    forget_resolved memory_only (u ∷ us) user found.dataset_id

  -- `_forget_documents`
  unfoldable pub forget_documents : Bool → DatasetHandle → List Uuid → Exec (Local S) (Unit {0})
  unfolding local_validate bound_user ensure_resolved forget_resolved
  forget_documents memory_only h ids = do local_validate sdk h; forget_some memory_only h ids

  abbrev pub teardown_resolved : User → Option Uuid → Exec (Local S) (Unit {0})
  teardown_resolved user none = pure tt
  teardown_resolved user (some id) = tolerate (sdk.forget_dataset id user)

  unfoldable pub local_teardown : DatasetHandle → Exec (Local S) (Unit {0})
  unfolding local_validate bound_user ensure_resolved
  local_teardown h = do
    local_validate sdk h
    user ← bound_user sdk h
    found ← ensure_resolved sdk h user
    teardown_resolved user found.dataset_id

  -- One row as a StoredDocument: complete if cognify's status for the dataset is.
  unfoldable pub stored_row : Uuid → DataRow → StoredDocument
  unfolding Dict.get status_of
  stored_row id row = record {
    data_id = row.id;
    label = row.label;
    external_metadata = row.external_metadata;
    cognify_complete =
        status_of id (Dict.get cognify_pipeline_name row.pipeline_status)
        == some cognify_complete_status;
  }

  abbrev pub list_resolved : User → Option Uuid → Exec (Local S) (List StoredDocument)
  list_resolved user none = pure []
  list_resolved user (some id) = do
    rows ← call (sdk.list_data id user)
    pure (Sets.sorted (λ a b. text_leb a.data_id b.data_id) (map (stored_row id) rows))

  unfoldable pub local_list : DatasetHandle → Exec (Local S) (List StoredDocument)
  unfolding local_validate bound_user ensure_resolved stored_row Sets.sorted text_leb
  local_list h = do
    local_validate sdk h
    user ← bound_user sdk h
    found ← ensure_resolved sdk h user
    list_resolved user found.dataset_id

  -- `dataset_lock`: the entry and the exit of the provider's context manager.
  unfoldable pub local_acquire : DatasetHandle → Exec (Local S) (Unit {0})
  unfolding local_validate lock_scope
  local_acquire h = do local_validate sdk h; call (sdk.acquire (lock_scope h))

  unfoldable pub local_release : DatasetHandle → Exec (Local S) (Unit {0})
  unfolding lock_scope
  local_release h = call (sdk.release (lock_scope h))

  -- The runtime, given the order of the groups' `repr`.
  abbrev pub local_runtime : (GroupKey → GroupKey → Bool) → CogneeRuntime (Local S)
  local_runtime repr_leb = record {
    resolve_dataset = local_resolve sdk;
    add_documents = local_add repr_leb;
    purge_document_memory = forget_documents true;
    delete_documents = forget_documents false;
    cognify_dataset = local_cognify;
    teardown_dataset = local_teardown;
    list_documents = local_list;
    acquire = local_acquire;
    release = local_release;
  }
