-- ===== src/Local/Binding.antt =====
-- LocalCogneeRuntime: its state, its readiness, and the user and the dataset that a handle is bound to.
-- `_compat.load` has succeeded in the constructor and is cached.
use cogindex.Base.{
  Bool, true, false, Option, none, some, Text, list_eq, nat_eq, pair_eq, option_eq, ◌==◌, not, ok,
  err, value_error, runtime_error, refuse,
}
use cogindex.Base.Exec.{Exec, pure, lift, ◌>>=◌, ◌>>◌}
use cogindex.Identity.{Uuid}
use cogindex.Runtime.{DatasetHandle}
use cogindex.Local.Checks.{Roots, validate_dataset_name, validate_tenant}
use cogindex.Local.Scope.{User, user_coordinates, physical_identity_scope}
use cogindex.Local.Datasets.{owned_matches, handle_for}
use cogindex.Local.Sdk.{Cognee}

-- The attributes of the runtime, and the state of what it wraps.
pub record Local (S : Type 0) : Type 0 where
  pub roots : Roots
  pub user : Option User
  pub setup_done : Bool
  pub resolved_identity_scope : Option Text
  pub sdk : S

module _ {S : Type 0} where
  abbrev pub call : {A : Type 0} → Exec S A → Exec (Local S) A
  call m l = let r = m l.sdk in (r.0, record l { sdk = r.1 })

  -- `_bind_runtime_scope`
  unfoldable pub bind_runtime_scope : Text → Exec (Local S) (Unit {0})
  bind_runtime_scope scope l = elim l.resolved_identity_scope [
    | none ↦ (ok tt, record l { resolved_identity_scope = some scope })
    | some bound ↦ (refuse (not (bound == scope)) runtime_error, l)
  ]

  unfoldable pub mark_setup : Exec (Local S) (Unit {0})
  mark_setup l = (ok tt, record l { setup_done = true })

  -- The scope of a handle against the runtime's.
  unfoldable pub check_scope : DatasetHandle → Exec (Local S) (Unit {0})
  check_scope h l = elim l.resolved_identity_scope [
    | none ↦ (err runtime_error, l)
    | some bound ↦ (refuse (not (h.identity_scope == bound)) value_error, l)
  ]

module _ {S : Type 0} (sdk : Cognee S) where
  -- `_assert_storage_roots`
  unfoldable pub assert_storage_roots : Exec (Local S) (Unit {0})
  assert_storage_roots l = (refuse (not (sdk.storage_roots l.sdk == some l.roots)) runtime_error, l)

  unfoldable pub setup : Bool → Exec (Local S) (Unit {0})
  unfolding mark_setup
  setup true = pure tt
  setup false = do call sdk.ensure_databases_ready; mark_setup

  -- `_ensure_ready`
  unfoldable pub ensure_ready : Exec (Local S) (Unit {0})
  unfolding assert_storage_roots setup
  ensure_ready = do call sdk.ensure_local_sdk_mode; assert_storage_roots; λ l. setup l.setup_done l

  unfoldable pub acting_user : Option User → Exec (Local S) User
  unfolding user_coordinates
  acting_user none = do
    user ← call sdk.resolve_default_user
    found ← lift (user_coordinates user)
    pure user
  acting_user (some configured) = do
    expected ← lift (user_coordinates configured)
    user ← call (sdk.resolve_user expected.0)
    found ← lift (user_coordinates user)
    lift (refuse (not (found == expected)) runtime_error)
    pure user

  -- `_resolve_acting_user`
  unfoldable pub resolve_acting_user : Exec (Local S) User
  unfolding acting_user
  resolve_acting_user l = acting_user l.user l

  -- `_resolve_dataset_for_user`
  unfoldable pub resolve_dataset_for_user : Text → Text → User → Text → Exec (Local S) DatasetHandle
  unfolding user_coordinates owned_matches handle_for
  resolve_dataset_for_user name tenant user scope = do
    coordinates ← lift (user_coordinates user)
    datasets ← call (sdk.list_datasets user)
    owned ← lift (owned_matches name coordinates datasets)
    lift (handle_for name tenant scope owned)

  unfoldable pub local_resolve : Text → Text → Exec (Local S) DatasetHandle
  unfolding validate_dataset_name validate_tenant ensure_ready resolve_acting_user
      physical_identity_scope bind_runtime_scope resolve_dataset_for_user
  local_resolve name tenant = do
    lift (validate_dataset_name name)
    lift (validate_tenant tenant)
    ensure_ready
    user ← resolve_acting_user
    scope ← lift (physical_identity_scope user)
    bind_runtime_scope scope
    resolve_dataset_for_user name tenant user scope

  -- `_validate_handle`
  unfoldable pub local_validate : DatasetHandle → Exec (Local S) (Unit {0})
  unfolding validate_dataset_name validate_tenant check_scope assert_storage_roots
  local_validate h = do
    lift (validate_dataset_name h.name)
    lift (validate_tenant h.tenant)
    check_scope h
    assert_storage_roots

  -- `_bind_user`
  unfoldable pub bind_user : DatasetHandle → Exec (Local S) User
  unfolding resolve_acting_user physical_identity_scope bind_runtime_scope
  bind_user h = do
    user ← resolve_acting_user
    scope ← lift (physical_identity_scope user)
    bind_runtime_scope scope
    lift (refuse (not (scope == h.identity_scope)) runtime_error)
    pure user

  abbrev pub resolve_if : DatasetHandle → User → Option Uuid → Exec (Local S) DatasetHandle
  resolve_if h user (some id) = pure h
  resolve_if h user none = resolve_dataset_for_user h.name h.tenant user h.identity_scope

  -- `_ensure_resolved`
  unfoldable pub ensure_resolved : DatasetHandle → User → Exec (Local S) DatasetHandle
  unfolding local_validate resolve_dataset_for_user
  ensure_resolved h user = do local_validate h; resolve_if h user h.dataset_id

  -- What each method does once its handle and its user are bound.
  unfoldable pub bound_user : DatasetHandle → Exec (Local S) User
  unfolding ensure_ready bind_user
  bound_user h = do ensure_ready; bind_user h
