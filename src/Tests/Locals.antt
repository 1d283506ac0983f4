-- ===== src/Tests/Locals.antt =====
-- A concrete Cognee that logs who writes, and the theorems on the runtime over it.
use cogindex.Base.{
  List, [], ◌∷◌, Bool, true, false, none, some, Text, codes, ◌≡◌, refl, Result, ok, err, list_eq,
  nat_eq, option_eq, pair_eq, pipeline_error, ◌>>=◌,
}
use cogindex.Base.Dict
use cogindex.Base.Exec.{Exec}
use cogindex.Identity.{Uuid, text_content}
use cogindex.Identity.Decimal.{decimal}
use cogindex.Runtime.{DatasetHandle, DocumentPayload}
use cogindex.Local.Checks.{supported_tenant}
use cogindex.Local.Scope.{
  User, uuid_value, no_value, Coordinates, physical_identity_scope, scope_of, lock_scope,
  lock_scope-injective,
}
use cogindex.Local.Results.{
  Run, run_info, Info, listed, not_list, no_entries, with_run, PipelineResult, single,
  raise_on_errored_runs,
}
use cogindex.Local.Results.Reported.{here, inside, in_run, raise_on_errored_runs-IsReported}
use cogindex.Local.Results.Accepted.{IsAccepted, raise_on_errored_runs-IsAccepted}
use cogindex.Local.Datasets.{Dataset, owned_matches, handle_for}
use cogindex.Local.Datasets.Owned.{IsResolved, handle_for-IsResolved}
use cogindex.Local.Groups.{GroupKey, groups_of, sorted_groups}
use cogindex.Local.Groups.Partition.{IsUnique, with_value, group_for, sorted_groups-IsUnique}
use cogindex.Local.Sdk.{Cognee}
use cogindex.Local.Binding.{Local}
use cogindex.Local.Frame.{IsCall}
use cogindex.Local.Operations.{
  local_runtime, local_add, forget_documents, local_cognify, local_teardown, local_list,
  local_acquire,
}
use cogindex.Local.Session.{Method, resolve_dataset, add_documents, after_all}
use cogindex.Local.Session.Refused.{unresolved, Refused, methods-Refused}
use cogindex.Local.Session.InScope.{IsCallSafe, IsBound, after_all-IsBound}
use cogindex.Local.Live.{Happening, constructed, ended, Process, happen_all}
use cogindex.Local.Live.Shared.{IsShared, happen_all-IsShared}
use cogindex.Tests.Deployment.{profile}

abbrev user_id : Uuid
user_id = codes "00000000-0000-0000-0000-000000000001"

abbrev someone : User
someone = record { id = uuid_value user_id; tenant_id = no_value }

abbrev coordinates : Coordinates
coordinates = (user_id, none)

abbrev completed : Text
completed = codes "PipelineRunCompleted"

abbrev docs : Text
docs = codes "docs"

abbrev done_run : Info → Run
done_run = run_info completed (some (codes "ds")) (some docs)

abbrev added_one : PipelineResult
added_one = single (done_run (listed (with_run (done_run not_list) no_entries)))

-- The scopes of those who have written
abbrev Writers : Type 0
Writers = List (Result Text)

abbrev nothing : Exec Writers (Unit {0})
nothing s = (ok tt, s)

abbrev logging : {A : Type 0} → A → User → Exec Writers A
logging a user s = (ok a, physical_identity_scope user ∷ s)

abbrev sdk : Cognee Writers
sdk = record {
  storage_roots = λ s. some (codes "/data", codes "/system");
  configure_storage = λ roots. nothing;
  ensure_local_sdk_mode = nothing;
  ensure_databases_ready = nothing;
  resolve_default_user = λ s. (ok someone, s);
  resolve_user = λ u s. (ok someone, s);
  list_datasets = λ user s. (ok [], s);
  validate_embedding_dimensions = λ s. (ok 3, s);
  add = λ items name o. logging added_one o.user;
  cognify = λ id o. logging added_one o.user;
  forget = λ o. logging tt o.user;
  forget_dataset = λ id user. logging tt user;
  list_data = λ id user s. (ok [], s);
  enter_context = λ id owner. nothing;
  exit_context = λ id owner. nothing;
  is_missing = λ e. false;
  acquire = λ text. nothing;
  release = λ text. nothing;
}

abbrev repr_leb : GroupKey → GroupKey → Bool
repr_leb a b = true

abbrev scope : Text
scope = scope_of coordinates

-- Only users of the scope have written.
abbrev AreInScope : Writers → Type 0
AreInScope [] = Unit
AreInScope (w ∷ ws) = (w ≡ ok scope) × AreInScope ws

safe_call :
    (name : Text) {A : Type 0} (m : Exec Writers A) (s : Writers)
    → IsCall sdk scope name A m
    → AreInScope s
    → AreInScope (m s).1
safe_call name m s (IsCall.adding items o acts i d) q = (acts, q)
safe_call name m s (IsCall.cognifying id o acts) q = (acts, q)
safe_call name m s (IsCall.forgetting o acts) q = (acts, q)
safe_call name m s (IsCall.tearing id user acts) q = (acts, q)
safe_call name m s IsCall.mode q = q
safe_call name m s IsCall.ready q = q
safe_call name m s IsCall.default_user q = q
safe_call name m s (IsCall.same_user u) q = q
safe_call name m s (IsCall.datasets user) q = q
safe_call name m s IsCall.width q = q
safe_call name m s (IsCall.rows id user) q = q
safe_call name m s (IsCall.enter id owner) q = q
safe_call name m s (IsCall.exit id owner) q = q
safe_call name m s (IsCall.locked text) q = q
safe_call name m s (IsCall.unlocked text) q = q

safe : IsCallSafe sdk repr_leb scope AreInScope
safe = record { safe = safe_call }

abbrev handle : DatasetHandle
handle = record {
  name = docs;
  tenant = supported_tenant;
  identity_scope = scope;
  dataset_id = none;
}

abbrev payload : DocumentPayload
payload = record {
  data_id = codes "u";
  content = text_content (codes "alpha");
  label = none;
  external_metadata = none;
  node_set = none;
  importance_weight = none;
}

abbrev methods : List Method
methods = resolve_dataset docs supported_tenant ∷ add_documents handle (payload ∷ []) ∷ []

abbrev bound : Local Writers
bound = record {
  roots = (codes "/data", codes "/system");
  user = none;
  setup_done = false;
  resolved_identity_scope = some scope;
  sdk = [];
}

after_all-IsBound_example :
    IsBound sdk repr_leb scope
      (codes "/data", codes "/system")
      none
      AreInScope
      (after_all (local_runtime sdk repr_leb) methods bound)
after_all-IsBound_example =
    after_all-IsBound sdk repr_leb scope (codes "/data", codes "/system") none AreInScope safe
      methods bound (record { scoped = refl; rooted = refl; owned = refl; held = tt })

abbrev unbound : Local Writers
unbound = record bound { resolved_identity_scope = none }

methods-Refused_example :
    Refused sdk handle unbound (local_add sdk repr_leb handle (payload ∷ []) unbound)
    × Refused sdk handle unbound (forget_documents sdk true handle (codes "u" ∷ []) unbound)
    × Refused sdk handle unbound (local_cognify sdk handle profile unbound)
    × Refused sdk handle unbound (local_teardown sdk handle unbound)
    × Refused sdk handle unbound (local_list sdk handle unbound)
    × Refused sdk handle unbound (local_acquire sdk handle unbound)
methods-Refused_example =
    methods-Refused sdk handle unbound (unresolved refl) repr_leb (payload ∷ []) true
      (codes "u" ∷ []) profile

lock_scope-injective_example :
    (coordinates ≡ coordinates) × (supported_tenant ≡ supported_tenant) × (docs ≡ docs)
unfolding lock_scope
lock_scope-injective_example =
    lock_scope-injective coordinates coordinates handle
      (record handle { dataset_id = some (codes "ds") }) tt tt refl refl refl

-- A completed add whose nested run is errored
abbrev failed_run : Run
failed_run = run_info (codes "PipelineRunErrored") none none not_list

abbrev half_failed : PipelineResult
half_failed = single (done_run (listed (with_run failed_run no_entries)))

raise_on_errored_runs-IsReported_example :
    raise_on_errored_runs docs (some 1) none half_failed ≡ err pipeline_error
raise_on_errored_runs-IsReported_example =
    raise_on_errored_runs-IsReported failed_run refl docs (some 1) none half_failed (
      inside completed (some (codes "ds")) (some docs) (with_run failed_run no_entries)
        (in_run failed_run no_entries here))

accepted : raise_on_errored_runs docs (some 1) none added_one ≡ ok tt
unfolding raise_on_errored_runs list_eq nat_eq option_eq
accepted = refl

raise_on_errored_runs-IsAccepted_example : IsAccepted docs (some 1) none added_one
raise_on_errored_runs-IsAccepted_example =
    raise_on_errored_runs-IsAccepted docs (some 1) none added_one accepted

-- Two payloads whose weights are the two zeros
abbrev zeros : List DocumentPayload
zeros =
    record payload { importance_weight = some (codes "0.0") }
    ∷ record payload { importance_weight = some (codes "-0.0") }
    ∷ []

sorted_groups-IsUnique_example :
    IsUnique (sorted_groups repr_leb zeros)
    × ((v : GroupKey) → Dict.get v (sorted_groups repr_leb zeros) ≡ group_for (with_value v zeros))
sorted_groups-IsUnique_example = sorted_groups-IsUnique repr_leb zeros

one_group : groups_of repr_leb zeros ≡ ((none, some (codes "0.0")), zeros) ∷ []
unfolding groups_of list_eq nat_eq option_eq pair_eq
one_group = refl

abbrev dataset : Dataset
dataset = record { id = codes "ds"; name = docs; owner_id = some user_id; tenant_id = no_value }

abbrev found : DatasetHandle
found = record handle { dataset_id = some (codes "ds") }

found_lem :
    (owned_matches docs coordinates (dataset ∷ []) >>= handle_for docs supported_tenant scope)
    ≡ ok found
unfolding owned_matches handle_for list_eq nat_eq option_eq scope_of decimal
found_lem = refl

handle_for-IsResolved_example :
    (docs ≡ docs)
    × (supported_tenant ≡ supported_tenant)
    × (scope ≡ scope)
    × IsResolved docs coordinates (dataset ∷ []) (some (codes "ds"))
handle_for-IsResolved_example =
    handle_for-IsResolved docs coordinates supported_tenant scope (dataset ∷ []) found found_lem

abbrev process : Process Writers
process = record { live = []; generation = 0; sdk = [] }

abbrev happenings : List (Happening sdk (λ t. t))
happenings =
    constructed (some (codes "/data")) (some (codes "/system")) false
    ∷ constructed (some (codes "/other")) (some (codes "/system")) false
    ∷ constructed (some (codes "/data")) (some (codes "/system")) true
    ∷ ended 1
    ∷ []

happen_all-IsShared_example : IsShared (happen_all sdk (λ t. t) happenings process)
happen_all-IsShared_example =
    happen_all-IsShared sdk (λ t. t) happenings process ((codes "/data", codes "/system"), tt)
