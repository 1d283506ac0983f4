-- ===== src/Tests.antt =====
-- Concrete runs and instances of the theorems.
pub mod Deployment
pub mod Plans
pub mod Datasets
pub mod Syncs
pub mod Machines
pub mod Locals
pub mod Settings
pub mod Sessions
pub mod Reports
use cogindex.Base.{
  ℕ, List, [], ◌∷◌, Bool, true, false, Option, none, some, Text, codes, ◌≡◌, refl, ◌⊎◌, inl, inr,
  Result, ok, err, contains, nat_eq, list_eq, value_error,
}
use cogindex.Base.Dict
use cogindex.Base.Dict.{Dict}
use cogindex.Identity.{
  Primitives, Uuid, Content, text_content, fingerprint_json, fingerprint_content, document_data_id,
  cogindex_namespace, validate_json_object_keys,
}
use cogindex.Identity.Utf8.{utf8}
use cogindex.Identity.{content_bytes}
use cogindex.Identity.Decoding.{read_content, read_content-content_bytes}
use cogindex.Identity.Value.{Json, null, num, text, arr, obj, nan, other, flag}
use cogindex.Identity.Decimal.{decimal}
use cogindex.Identity.Join.{canonical_join, canonical_join-injective}
use cogindex.Identity.Distinct.{NamesApart, document_data_id-injective}
use cogindex.Records.{DocumentRecord}
use cogindex.Runtime.{DatasetHandle, DocumentPayload}
use cogindex.Spec.Profile.{CognifyProfile}
use cogindex.Spec.Document.{
  CogneeDocumentSpec, DocumentArgs, document_spec, document_record_for, annotations_json,
  weight_json, label_json,
}
use cogindex.Identity.Value.{field, end, text_key}
use cogindex.Spec.Document.{entries, finite}
use cogindex.Spec.Document.Fingerprints.{IsBuiltFrom, document_spec-IsBuiltFrom}
use cogindex.Target.Statediff.{DiffAction}
use cogindex.Target.Reconcile.{
  DocumentAction, DocumentOp, recreate, replace, upsert, delete, classify_write, payload_for,
}
use cogindex.Target.Apply.{Batch, empty_batch, collect, settle}
use cogindex.Target.Apply.Marks.{Settled}
use cogindex.Testing.Documents.{FakeDocument, fresh_document, purged, added, cognified}
use cogindex.Testing.Faults.{Fake, delete_documents}
use cogindex.Engine.Entry.{TrackEntry, extend}

-- Primitives that forget nothing: a digest is its payload, a UUID its name.
abbrev pub dump : Json → Result Text
dump null = ok (codes "null")
dump (num t) = ok t
dump (text t) = ok t
dump nan = err value_error
dump other = ok []
dump (flag b) = ok []
dump (arr items) = ok []
dump (obj fields) = ok []

abbrev pub plain : Primitives
plain = record {
  blake2b = λ n bytes. bytes;
  uuid5 = λ space name. name;
  nfc = λ t. t;
  dumps = dump;
}

pub plain-NamesApart : NamesApart plain
plain-NamesApart space s t e = e

abbrev pub args : DocumentArgs
args = record {
  content = text_content (codes "hello");
  label = none;
  external_metadata = none;
  node_set = none;
  importance_weight = none;
}

abbrev pub spec : CogneeDocumentSpec
spec = record {
  content = text_content (codes "hello");
  label = none;
  external_metadata = none;
  node_set = none;
  importance_weight = none;
  content_fingerprint = fingerprint_content plain (text_content (codes "hello"));
  annotations_fingerprint = [];
  importance_weight_fingerprint = codes "null";
  metadata_fingerprint = [];
}

pub built : document_spec plain args ≡ ok spec
unfolding document_spec utf8 validate_json_object_keys
built = refl

-- A document with metadata, a node set and a weight
abbrev rich_args : DocumentArgs
rich_args = record args {
  external_metadata = some (field (text_key (codes "year")) (num (codes "2024")) end);
  node_set = some (entries (some (codes "b") ∷ some (codes "a") ∷ []));
  importance_weight = some (finite (codes "0.5"));
}

abbrev rich : CogneeDocumentSpec
rich = record spec {
  external_metadata = rich_args.external_metadata;
  node_set = some (codes "b" ∷ codes "a" ∷ []);
  importance_weight = some (codes "0.5");
  importance_weight_fingerprint = codes "0.5";
}

rich_built : document_spec plain rich_args ≡ ok rich
unfolding document_spec utf8 validate_json_object_keys list_eq nat_eq
rich_built = refl

document_spec-IsBuiltFrom_example : IsBuiltFrom plain rich_args rich
document_spec-IsBuiltFrom_example = document_spec-IsBuiltFrom plain rich_args rich rich_built

canonical_join-injective_example : codes "a" ∷ codes "bc" ∷ [] ≡ codes "a" ∷ codes "bc" ∷ []
canonical_join-injective_example =
    canonical_join-injective (codes "a" ∷ codes "bc" ∷ []) (codes "a" ∷ codes "bc" ∷ []) refl

abbrev pub main_id : Uuid
main_id =
    canonical_join
      (codes "2" ∷ codes "main" ∷ codes "scope" ∷ codes "tenant" ∷ codes "docs" ∷ codes "a.md" ∷ [])

pub main_id_lem :
    document_data_id plain
      (codes "main")
      (codes "scope")
      (codes "tenant")
      (codes "docs")
      (codes "a.md")
    ≡ ok main_id
unfolding document_data_id nat_eq decimal
main_id_lem = refl

document_data_id-injective_example :
    (codes "main" ≡ codes "main")
    × (codes "scope" ≡ codes "scope")
    × (codes "tenant" ≡ codes "tenant")
    × (codes "docs" ≡ codes "docs")
    × (plain.nfc (codes "a.md") ≡ plain.nfc (codes "a.md"))
document_data_id-injective_example =
    document_data_id-injective plain plain-NamesApart (codes "main") (codes "main") (codes "scope")
      (codes "scope") (codes "tenant") (codes "tenant") (codes "docs") (codes "docs") (codes "a.md")
      (codes "a.md") main_id main_id_lem main_id_lem

read_content-content_bytes_example :
    read_content (content_bytes plain (text_content (codes "déjà €")))
    ≡ some (text_content (codes "déjà €"))
read_content-content_bytes_example =
    read_content-content_bytes plain (text_content (codes "déjà €"))
