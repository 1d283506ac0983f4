-- ===== src/Spec/Document.antt =====
-- CogneeDocumentSpec and document_record_for.
pub mod Checked
pub mod Fingerprints
use cogindex.Base.{
  ℕ, List, [], ◌∷◌, Bool, true, false, ◌||◌, not, Option, none, some, length, any, contains, nat_eq,
  list_eq, ◌==◌, Text, codes, text_leb, if◌then◌else◌,
}
use cogindex.Base.{Result, ok, err, type_error, value_error, ◌>>=◌, ◌>>◌, refuse}
use cogindex.Base.Sets
use cogindex.Identity.{Primitives, Uuid, Content, fingerprint_json, fingerprint_content}
use cogindex.Identity.Value.{
  Json, null, num, text, arr, obj, Items, nil, cons, Fields, end, field, text_key,
}
use cogindex.Records.{DocumentRecord, record_schema_version}
use cogindex.Spec.Profile.{is_blank}
use cogindex.Spec.Processing.{text_or_null, entry}

-- The node set as it is passed: a bare text or bytes, or entries, `none` for one that is no text.
pub data NodeSetArg : Type 0 where
  bare : NodeSetArg
  entries : List (Option Text) → NodeSetArg

-- A weight as it is passed; a finite number is the text of the float it converts to.
pub data WeightArg : Type 0 where
  boolean : WeightArg
  not_finite : WeightArg
  finite : Text → WeightArg

pub record DocumentArgs : Type 0 where
  pub content : Content
  pub label : Option Text
  pub external_metadata : Option Fields
  pub node_set : Option NodeSetArg
  pub importance_weight : Option WeightArg

-- A finite weight is kept as the text of its float.
pub record CogneeDocumentSpec : Type 0 where
  pub content : Content
  pub label : Option Text
  pub external_metadata : Option Fields
  pub node_set : Option (List Text)
  pub importance_weight : Option Text
  pub content_fingerprint : Text
  pub annotations_fingerprint : Text
  pub importance_weight_fingerprint : Text
  pub metadata_fingerprint : Text

unfoldable pub all_texts : List (Option Text) → Result (List Text)
all_texts [] = ok []
all_texts (none ∷ rest) = err type_error
all_texts (some t ∷ rest) = let more = all_texts rest in more >>= λ ts. ok (t ∷ ts)

unfoldable pub check_nodes : Option NodeSetArg → Result (Option (List Text))
unfolding all_texts is_blank Sets.update
check_nodes none = ok none
check_nodes (some bare) = err type_error
check_nodes (some (entries es)) = do
  nodes ← all_texts es
  refuse (any (λ node. is_blank node || contains 0 node) nodes) value_error
  refuse (not (length (Sets.update nodes []) == length nodes)) value_error
  ok (some nodes)

unfoldable pub check_weight : Option WeightArg → Result (Option Text)
check_weight none = ok none
check_weight (some boolean) = err type_error
check_weight (some not_finite) = err value_error
check_weight (some (finite t)) = ok (some t)

unfoldable pub metadata_json : Option Fields → Json
metadata_json none = null
metadata_json (some fields) = obj fields

unfoldable pub text_items : List Text → Items
text_items [] = nil
text_items (t ∷ ts) = cons (text t) (text_items ts)

-- The order of a node set is presentation: it is sorted for the fingerprint.
unfoldable pub nodes_json : Option (List Text) → Json
unfolding text_items Sets.sorted text_leb
nodes_json none = null
nodes_json (some nodes) = arr (text_items (Sets.sorted text_leb nodes))

unfoldable pub annotations_json : Option Fields → Option (List Text) → Json
unfolding metadata_json nodes_json
annotations_json metadata nodes = obj (
    entry (codes "external_metadata") (metadata_json metadata)
      (entry (codes "node_set") (nodes_json nodes) end))

unfoldable pub weight_json : Option Text → Json
weight_json none = null
weight_json (some t) = num t

unfoldable pub label_json : Option Text → Json
unfolding text_or_null
label_json label = obj (entry (codes "label") (text_or_null label) end)

module _ (P : Primitives) where
  -- `CogneeDocumentSpec.__post_init__`
  unfoldable pub document_spec : DocumentArgs → Result CogneeDocumentSpec
  unfolding fingerprint_json fingerprint_content check_nodes check_weight annotations_json
      weight_json label_json metadata_json
  document_spec args = do
    checked ← fingerprint_json P (metadata_json args.external_metadata)
    nodes ← check_nodes args.node_set
    weight ← check_weight args.importance_weight
    annotations ← fingerprint_json P (annotations_json args.external_metadata nodes)
    weight_fp ← fingerprint_json P (weight_json weight)
    label_fp ← fingerprint_json P (label_json args.label)
    ok (record {
      content = args.content;
      label = args.label;
      external_metadata = args.external_metadata;
      node_set = nodes;
      importance_weight = weight;
      content_fingerprint = fingerprint_content P args.content;
      annotations_fingerprint = annotations;
      importance_weight_fingerprint = weight_fp;
      metadata_fingerprint = label_fp;
    })

unfoldable pub document_record_for : CogneeDocumentSpec → Uuid → Text → DocumentRecord
document_record_for spec data_id processing_fingerprint = record {
  data_id = data_id;
  content_fingerprint = spec.content_fingerprint;
  annotations_fingerprint = spec.annotations_fingerprint;
  metadata_fingerprint = spec.metadata_fingerprint;
  processing_fingerprint = processing_fingerprint;
  importance_weight_fingerprint = spec.importance_weight_fingerprint;
  schema_version = record_schema_version;
}
