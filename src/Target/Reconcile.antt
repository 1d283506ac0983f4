-- ===== src/Target/Reconcile.antt =====
-- `_classify_write` and `DocumentHandler.reconcile`.
use cogindex.Base.{
  List, [], ◌∷◌, Bool, true, false, ◌&&◌, not, Option, none, some, any, all, is_empty, nat_eq,
  list_eq, ◌==◌, Text, text_leb, Result, ok, ◌>>=◌, if◌then◌else◌,
}
use cogindex.Base.Sets
use cogindex.Identity.{Primitives, Uuid, document_data_id, normalize_external_key}
use cogindex.Records.{DocumentRecord}
use cogindex.Runtime.{DatasetHandle, DocumentPayload}
use cogindex.Spec.Document.{CogneeDocumentSpec, document_record_for}
use cogindex.Spec.Profile.{CognifyProfile}
use cogindex.Target.Statediff.{Diff, DiffAction}

pub data DocumentOp : Type 0 where
  upsert replace recreate update_metadata delete : DocumentOp

pub record DocumentAction : Type 0 where
  pub op : DocumentOp
  pub external_key : Text
  pub data_id : Uuid
  pub stale_data_ids : List Uuid
  pub payload : Option DocumentPayload

-- The record is the desired one up to label and weight.
unfoldable pub same_derivatives : DocumentRecord → DocumentRecord → Bool
same_derivatives desired record' =
    record'.data_id == desired.data_id
    && record'.content_fingerprint == desired.content_fingerprint
    && record'.annotations_fingerprint == desired.annotations_fingerprint
    && record'.processing_fingerprint == desired.processing_fingerprint
    && record'.schema_version == desired.schema_version

unfoldable pub other_weight : DocumentRecord → DocumentRecord → Bool
other_weight desired r =
    not (r.importance_weight_fingerprint == desired.importance_weight_fingerprint)

-- `diff_action in ("insert", "upsert")`
unfoldable pub creates : DiffAction → Bool
creates DiffAction.insert = true
creates DiffAction.upsert = true
creates DiffAction.replace = false
creates DiffAction.delete = false

unfoldable pub classify_write :
    DiffAction → DocumentRecord → List DocumentRecord → Bool → DocumentOp
unfolding same_derivatives other_weight creates
classify_write diff_action desired prev_records prev_may_be_missing =
    if not (is_empty prev_records) && any (other_weight desired) prev_records
    then recreate
    else if creates diff_action
    then (if prev_may_be_missing && not (is_empty prev_records) then replace else upsert)
    else if not prev_may_be_missing && all (same_derivatives desired) prev_records
    then update_metadata
    else replace

-- What an instance of DocumentHandler holds, but for its runtime.
pub record DocumentHandler : Type 0 where
  pub runtime_key : Text
  pub handle : DatasetHandle
  pub profile : CognifyProfile
  pub processing_fingerprint : Text

-- `TargetReconcileOutput`; a tracking record of `none` is NON_EXISTENCE.
pub record Output : Type 0 where
  pub action : DocumentAction
  pub tracking_record : Option DocumentRecord

-- `{r.data_id for r in records if r.data_id != data_id}`
unfoldable pub other_ids : Uuid → List DocumentRecord → List Uuid
other_ids data_id [] = []
other_ids data_id (r ∷ rest) =
    let more = other_ids data_id rest in
    if r.data_id == data_id then more else Sets.add r.data_id more

-- `sorted(ids, key=str)`
unfoldable pub ordered : List Uuid → List Uuid
unfolding Sets.sorted text_leb
ordered = Sets.sorted text_leb

unfoldable pub payload_for : Uuid → CogneeDocumentSpec → DocumentPayload
payload_for data_id spec = record {
  data_id = data_id;
  content = spec.content;
  label = spec.label;
  external_metadata = spec.external_metadata;
  node_set = spec.node_set;
  importance_weight = spec.importance_weight;
}

unfoldable pub delete_output : Text → Uuid → List Uuid → Output
delete_output key data_id stale = record {
  action = record {
    op = delete;
    external_key = key;
    data_id = data_id;
    stale_data_ids = stale;
    payload = none;
  };
  tracking_record = none;
}

unfoldable pub write_output :
    DocumentOp → Text → Uuid → List Uuid → CogneeDocumentSpec → DocumentRecord → Output
unfolding payload_for
write_output op key data_id stale spec desired = record {
  action = record {
    op = op;
    external_key = key;
    data_id = data_id;
    stale_data_ids = stale;
    payload = some (payload_for data_id spec);
  };
  tracking_record = some desired;
}

-- The write of a live document, from what `statediff.diff` found.
unfoldable pub write_of :
    Option DiffAction
    → Text
    → Uuid
    → CogneeDocumentSpec
    → DocumentRecord
    → List DocumentRecord
    → Bool
    → Option Output
write_of none key data_id spec desired prev missing = none
write_of (some diff_action) key data_id spec desired prev missing = some (
    write_output (classify_write diff_action desired prev missing) key data_id
      (ordered (other_ids data_id prev)) spec desired)

module _ (P : Primitives) (diff : Diff) where
  -- The part of reconcile that follows the derivation of the identity. A desired state of `none`
  -- is NON_EXISTENCE.
  unfoldable pub decide :
      DocumentHandler
      → Text
      → Uuid
      → Option CogneeDocumentSpec
      → List DocumentRecord
      → Bool
      → Option Output
  unfolding delete_output write_of document_record_for
  decide handler key data_id none prev missing =
      if is_empty prev && not missing
      then none
      else some (delete_output key data_id (ordered (other_ids data_id prev)))
  decide handler key data_id (some spec) prev missing =
      let desired = document_record_for spec data_id handler.processing_fingerprint in
      write_of (diff desired prev missing) key data_id spec desired prev missing

  unfoldable pub handler_data_id : DocumentHandler → Text → Result Uuid
  unfolding document_data_id
  handler_data_id handler external_key =
      document_data_id P handler.runtime_key handler.handle.identity_scope handler.handle.tenant
        handler.handle.name external_key

  unfoldable pub reconcile :
      DocumentHandler
      → Text
      → Option CogneeDocumentSpec
      → List DocumentRecord
      → Bool
      → Result (Option Output)
  unfolding normalize_external_key handler_data_id decide
  reconcile handler key desired_state prev missing = do
    external_key ← normalize_external_key P key
    data_id ← handler_data_id handler external_key
    ok (decide handler external_key data_id desired_state prev missing)
