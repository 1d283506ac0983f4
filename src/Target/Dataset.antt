-- ===== src/Target/Dataset.antt =====
-- The dataset level of _target.py: DatasetHandler, its sink, and the public functions.
use cogindex.Base.{
  List, [], ◌∷◌, Bool, false, Option, none, some, Text, Result, ok, runtime_error, ◌>>=◌, ◌>>◌,
}
use cogindex.Base.Exec
use cogindex.Base.Exec.{Exec}
use cogindex.Identity.{
  Primitives, normalize_external_key, validate_runtime_key, validate_coordinate,
}
use cogindex.Records.{DatasetConfigRecord, record_schema_version}
use cogindex.Runtime.{CogneeRuntime}
use cogindex.Spec.Dataset.{ManagedBy, CogneeDatasetSpec}
use cogindex.Spec.Document.{DocumentArgs, CogneeDocumentSpec, document_spec}
use cogindex.Spec.Processing.{ProcessingConfig, processing_fingerprint}
use cogindex.Spec.Profile.{CognifyProfile}
use cogindex.Target.Apply.{with_lock}
use cogindex.Target.Reconcile.{DocumentHandler}
use cogindex.Target.Statediff.{DiffAction, insert, upsert, replace, delete}

pub record DatasetKey : Type 0 where
  pub runtime_key : Text
  pub tenant : Text
  pub dataset_name : Text

-- `statediff.MutualTrackingRecord[DatasetConfigRecord]`
pub record DatasetTrackingRecord : Type 0 where
  pub tracking_record : DatasetConfigRecord
  pub managed_by : ManagedBy

-- A spec of `none` is NON_EXISTENCE.
pub record DatasetAction : Type 0 where
  pub key : DatasetKey
  pub spec : Option CogneeDatasetSpec
  pub main_action : Option DiffAction
  pub processing_fingerprint : Option Text

-- `_check_dataset_key`; that the key is a triple of texts is its type.
unfoldable pub check_dataset_key : DatasetKey → Result DatasetKey
unfolding validate_runtime_key validate_coordinate
check_dataset_key key = do
  validate_runtime_key key.runtime_key
  validate_coordinate key.tenant
  validate_coordinate key.dataset_name
  ok key

-- `lossy` keeps the raw data of the children; `destructive` is never asked for.
pub data ChildInvalidation : Type 0 where
  destructive lossy : ChildInvalidation

pub record DatasetOutput : Type 0 where
  pub action : DatasetAction
  pub tracking_record : Option DatasetTrackingRecord
  pub child_invalidation : Option ChildInvalidation

unfoldable pub invalidation_of : Option DiffAction → Option ChildInvalidation
invalidation_of (some replace) = some lossy
invalidation_of (some insert) = none
invalidation_of (some upsert) = none
invalidation_of (some delete) = none
invalidation_of none = none

-- `statediff.diff` after `statediff.resolve_system_transition`
abbrev pub DatasetDiff : Type 0
DatasetDiff = Option DatasetTrackingRecord → List DatasetTrackingRecord → Bool → Option DiffAction

unfoldable pub tracking_record_for : Text → CogneeDatasetSpec → DatasetTrackingRecord
tracking_record_for fingerprint spec = record {
  tracking_record = record {
    processing_fingerprint = fingerprint;
    schema_version = record_schema_version;
  };
  managed_by = spec.managed_by;
}

-- The output that `DatasetHandler.reconcile` always returns.
unfoldable pub dataset_output :
    DatasetKey
    → Option CogneeDatasetSpec
    → Option DiffAction
    → Option Text
    → Option DatasetTrackingRecord
    → DatasetOutput
unfolding invalidation_of
dataset_output key spec main_action fingerprint tracked = record {
  action = record {
    key = key;
    spec = spec;
    main_action = main_action;
    processing_fingerprint = fingerprint;
  };
  tracking_record = tracked;
  child_invalidation = invalidation_of main_action;
}

module _ (P : Primitives) (diff : DatasetDiff) where
  -- The part of reconcile that follows the check of the key.
  unfoldable pub reconcile_checked :
      DatasetKey
      → Option CogneeDatasetSpec
      → List DatasetTrackingRecord
      → Bool
      → Result DatasetOutput
  unfolding processing_fingerprint tracking_record_for dataset_output
  reconcile_checked key none prev missing =
      ok (dataset_output key none (diff none prev missing) none none)
  reconcile_checked key (some spec) prev missing =
      processing_fingerprint P spec.processing >>= λ fingerprint.
      let tracked = some (tracking_record_for fingerprint spec) in
      ok (dataset_output key (some spec) (diff tracked prev missing) (some fingerprint) tracked)

  unfoldable pub reconcile_dataset :
      DatasetKey
      → Option CogneeDatasetSpec
      → List DatasetTrackingRecord
      → Bool
      → Result DatasetOutput
  unfolding check_dataset_key reconcile_checked
  reconcile_dataset key desired prev missing =
      check_dataset_key key >>= λ checked. reconcile_checked checked desired prev missing

module _ {S : Type 0} (provided : Text → Result (CogneeRuntime S)) where
  -- The runtime of a context key, or what looking it up and checking its type raises.
  unfoldable pub teardown : CogneeRuntime S → DatasetKey → Exec S (Option DocumentHandler)
  teardown runtime key = Exec.◌>>=◌ (runtime.resolve_dataset key.dataset_name key.tenant) λ handle.
      Exec.◌>>=◌ (with_lock runtime handle (runtime.teardown_dataset handle)) λ _. Exec.pure none

  unfoldable pub child_for :
      CogneeRuntime S
      → DatasetKey
      → CogneeDatasetSpec
      → Option Text
      → Exec S (Option DocumentHandler)
  child_for runtime key spec fingerprint =
      Exec.◌>>=◌ (runtime.resolve_dataset key.dataset_name key.tenant) λ handle. elim fingerprint [
        | none ↦ Exec.raise runtime_error
        | some fp ↦ Exec.pure (
            some (record {
              runtime_key = key.runtime_key;
              handle = handle;
              profile = spec.profile;
              processing_fingerprint = fp;
            }))
      ]

  -- A gone dataset: only a system-managed deletion is external work.
  unfoldable pub apply_gone : DatasetKey → Option DiffAction → Exec S (Option DocumentHandler)
  unfolding teardown
  apply_gone key none = Exec.pure none
  apply_gone key (some delete) =
      Exec.◌>>=◌ (Exec.lift (provided key.runtime_key)) λ runtime. teardown runtime key
  apply_gone key (some insert) =
      Exec.◌>>=◌ (Exec.lift (provided key.runtime_key)) λ runtime. Exec.pure none
  apply_gone key (some upsert) =
      Exec.◌>>=◌ (Exec.lift (provided key.runtime_key)) λ runtime. Exec.pure none
  apply_gone key (some replace) =
      Exec.◌>>=◌ (Exec.lift (provided key.runtime_key)) λ runtime. Exec.pure none

  unfoldable pub apply_dataset_action : DatasetAction → Exec S (Option DocumentHandler)
  unfolding apply_gone child_for
  apply_dataset_action action = elim action.spec [
    | none ↦ apply_gone action.key action.main_action
    | some spec ↦
        Exec.◌>>=◌ (Exec.lift (provided action.key.runtime_key))
          λ runtime. child_for runtime action.key spec action.processing_fingerprint
  ]

  -- One child, or none, of each action, in their order.
  unfoldable pub apply_dataset_actions : List DatasetAction → Exec S (List (Option DocumentHandler))
  unfolding apply_dataset_action
  apply_dataset_actions [] = Exec.pure []
  apply_dataset_actions (action ∷ rest) =
      let later = apply_dataset_actions rest in
      Exec.◌>>=◌ (apply_dataset_action action)
        λ child. Exec.◌>>=◌ later λ children. Exec.pure (child ∷ children)

module _ (P : Primitives) where
  -- `DatasetTarget.declare_document`: the key and the spec of the declared target state.
  unfoldable pub declare_document : Text → DocumentArgs → Result (Text × CogneeDocumentSpec)
  unfolding document_spec normalize_external_key
  declare_document external_key args = do
    spec ← document_spec P args
    key ← normalize_external_key P external_key
    ok (key, spec)

abbrev pub profile_or_default : Option CognifyProfile → CognifyProfile
profile_or_default (some p) = p
profile_or_default none = record {
  graph_model = none;
  chunker = none;
  chunk_size = none;
  custom_prompt = none;
  temporal_cognify = false;
}

-- The given configuration, or the one that is derived from the profile.
abbrev pub processing_or :
    Option ProcessingConfig
    → (CognifyProfile → Result ProcessingConfig)
    → CognifyProfile
    → Result ProcessingConfig
processing_or (some c) derive p = ok c
processing_or none derive p = derive p

-- The key and the spec of the container's target state. `derive` is
-- `processing_config_from_profile` with Cognee's defaults.
unfoldable pub dataset_target :
    (CognifyProfile → Result ProcessingConfig)
    → Text
    → Text
    → Option CognifyProfile
    → Option ProcessingConfig
    → Text
    → ManagedBy
    → Result (DatasetKey × CogneeDatasetSpec)
unfolding validate_runtime_key validate_coordinate
dataset_target derive runtime_key name profile processing tenant managed_by = do
  validate_runtime_key runtime_key
  validate_coordinate tenant
  validate_coordinate name
  let resolved = profile_or_default profile
  config ← processing_or processing derive resolved
  ok (
    record { runtime_key = runtime_key; tenant = tenant; dataset_name = name },
    record { profile = resolved; processing = config; managed_by = managed_by },
  )

-- `DatasetTarget` holds the provider that the engine gave for the container's target state.
pub record DatasetTarget (Provider : Type 0) : Type 0 where
  pub provider : Provider

-- `declare` is the engine's `declare_target_state_with_child`.
unfoldable pub declare_dataset_target :
    {Provider : Type 0}
    → (DatasetKey × CogneeDatasetSpec → Result Provider)
    → (CognifyProfile → Result ProcessingConfig)
    → Text
    → Text
    → Option CognifyProfile
    → Option ProcessingConfig
    → Text
    → ManagedBy
    → Result (DatasetTarget Provider)
unfolding dataset_target
declare_dataset_target declare derive runtime_key name profile processing tenant managed_by = do
  target ← dataset_target derive runtime_key name profile processing tenant managed_by
  provider ← declare target
  ok (record { provider = provider })

-- `mount` is the engine's `mount_target`, which changes the engine's state.
unfoldable pub mount_dataset_target :
    {Provider S : Type 0}
    → (DatasetKey × CogneeDatasetSpec → Exec S Provider)
    → (CognifyProfile → Result ProcessingConfig)
    → Text
    → Text
    → Option CognifyProfile
    → Option ProcessingConfig
    → Text
    → ManagedBy
    → Exec S (DatasetTarget Provider)
unfolding dataset_target
mount_dataset_target mount derive runtime_key name profile processing tenant managed_by =
    Exec.◌>>=◌
      (Exec.lift (dataset_target derive runtime_key name profile processing tenant managed_by))
      λ target. Exec.◌>>=◌ (mount target) λ provider. Exec.pure (record { provider = provider })
