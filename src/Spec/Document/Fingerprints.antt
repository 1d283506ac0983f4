-- ===== src/Spec/Document/Fingerprints.antt =====
-- What a constructed CogneeDocumentSpec says of its own fields.
use cogindex.Base.{Text, ◌≡◌, refl, ok, >>=-eq-ok, ok-injective, nat_eq, list_eq}
use mathlib.Core.Path.{subst}
use cogindex.Identity.Value.{Json}
use cogindex.Spec.Document.Checked.{
  HasTextKeys, IsNodeSet, IsWeight, validate_json_object_keys-HasTextKeys, check_nodes-IsNodeSet,
  check_weight-IsWeight,
}
use cogindex.Identity.{Primitives, validate_json_object_keys, fingerprint_json, fingerprint_content}
use cogindex.Spec.Document.{
  DocumentArgs, CogneeDocumentSpec, document_spec, check_nodes, check_weight, annotations_json,
  weight_json, label_json, metadata_json,
}

-- What `fingerprint_json` has checked of a value: all its mappings have texts as keys, and it can be
-- dumped.
abbrev pub IsJson : Primitives → Json → Type 0
IsJson P v = HasTextKeys v × ((canonical : Text) × (P.dumps v ≡ ok canonical))

-- The specification of a construction: the fields are the arguments, those that are checked are as
-- they must be, and each of the four fingerprints is that of the fields it stands for.
abbrev pub IsBuiltFrom : Primitives → DocumentArgs → CogneeDocumentSpec → Type 0
IsBuiltFrom P args s =
    (s.content ≡ args.content)
    × (s.label ≡ args.label)
    × (s.external_metadata ≡ args.external_metadata)
    × IsJson P (metadata_json s.external_metadata)
    × IsNodeSet args.node_set s.node_set
    × IsWeight args.importance_weight s.importance_weight
    × (s.content_fingerprint ≡ fingerprint_content P s.content)
    × (fingerprint_json P (annotations_json s.external_metadata s.node_set)
        ≡ ok s.annotations_fingerprint)
    × (fingerprint_json P (weight_json s.importance_weight) ≡ ok s.importance_weight_fingerprint)
    × (fingerprint_json P (label_json s.label) ≡ ok s.metadata_fingerprint)

fingerprint_json-IsJson :
    (P : Primitives) (v : Json) {f : Text} → fingerprint_json P v ≡ ok f → IsJson P v
unfolding fingerprint_json
fingerprint_json-IsJson P v h =
    let (u, e, h1) = >>=-eq-ok (validate_json_object_keys v) _ h in
    let (canonical, e1, h2) = >>=-eq-ok (P.dumps v) _ h1 in
    (validate_json_object_keys-HasTextKeys v e, (canonical, e1))

-- A constructed document keeps its content, label, metadata, node set and weight; its metadata can
-- be dumped and all its mappings have texts as keys; its nodes are texts that are not blank, have
-- no NUL and are all different; its weight is none or a finite number; and its four fingerprints
-- are those of its content, of its metadata and node set, of its weight, and of its label.
pub document_spec-IsBuiltFrom :
    (P : Primitives) (args : DocumentArgs) (s : CogneeDocumentSpec)
    → document_spec P args ≡ ok s
    → IsBuiltFrom P args s
unfolding document_spec
document_spec-IsBuiltFrom P args s h =
    let (checked, e1, h1) =
      >>=-eq-ok (fingerprint_json P (metadata_json args.external_metadata)) _ h in
    let (nodes, e2, h2) = >>=-eq-ok (check_nodes args.node_set) _ h1 in
    let (weight, e3, h3) = >>=-eq-ok (check_weight args.importance_weight) _ h2 in
    let (annotations, e4, h4) =
      >>=-eq-ok (fingerprint_json P (annotations_json args.external_metadata nodes)) _ h3 in
    let (weight_fp, e5, h5) = >>=-eq-ok (fingerprint_json P (weight_json weight)) _ h4 in
    let (label_fp, e6, h6) = >>=-eq-ok (fingerprint_json P (label_json args.label)) _ h5 in
    subst (IsBuiltFrom P args) (ok-injective _ _ h6) (
      refl,
      refl,
      refl,
      fingerprint_json-IsJson P (metadata_json args.external_metadata) e1,
      check_nodes-IsNodeSet args.node_set nodes e2,
      check_weight-IsWeight args.importance_weight weight e3,
      refl,
      e4,
      e5,
      e6,
    )
