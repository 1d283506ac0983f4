-- ===== src/Verify.antt =====
-- src/cogindex/_verify.py: the comparison of expected documents with those of a runtime.
pub mod Report
pub mod Indexed
pub mod Whole
use cogindex.Base.{
  ℕ, List, [], ◌∷◌, ◌++◌, Bool, true, false, Option, none, some, list_eq, nat_eq, option_eq, ◌==◌,
  Text, text_leb, Result, ok, err, value_error, runtime_error, ◌>>=◌, is_empty, length,
  if◌then◌else◌,
}
use cogindex.Base.Dict
use cogindex.Base.Dict.{Dict}
use cogindex.Base.Exec
use cogindex.Base.Exec.{Exec}
use cogindex.Base.Sets
use cogindex.Identity.{
  Primitives, Uuid, document_data_id, normalize_external_key, validate_runtime_key,
  validate_coordinate,
}
use cogindex.Runtime.{CogneeRuntime, DatasetHandle, StoredDocument}
use cogindex.Target.Apply.{with_lock}

pub record ExpectedDocument : Type 0 where
  pub external_key : Text
  pub label : Option Text

pub data IssueKind : Type 0 where
  missing unexpected incomplete label_mismatch : IssueKind

-- An issue without the text of its `detail`.
pub record VerificationIssue : Type 0 where
  pub kind : IssueKind
  pub data_id : Uuid
  pub external_key : Option Text

pub record VerificationReport : Type 0 where
  pub dataset : Text
  pub tenant : Text
  pub checked : ℕ
  pub issues : List VerificationIssue

-- `VerificationReport.ok`
unfoldable pub report_ok : VerificationReport → Bool
report_ok report = is_empty report.issues

abbrev pub Expected : Type 0
Expected = Dict Uuid ExpectedDocument

abbrev pub Stored : Type 0
Stored = Dict Uuid StoredDocument

-- Two expected documents of one identity are refused.
unfoldable pub expect_new :
    Option ExpectedDocument → Uuid → ExpectedDocument → Expected → Result Expected
unfolding Dict.put
expect_new none u item known = ok (Dict.put u item known)
expect_new (some previous) u item known = err value_error

unfoldable pub store_new : Option StoredDocument → StoredDocument → Stored → Result Stored
unfolding Dict.put
store_new none document known = ok (Dict.put document.data_id document known)
store_new (some previous) document known = err runtime_error

unfoldable pub index_stored : List StoredDocument → Stored → Result Stored
unfolding store_new Dict.get
index_stored [] known = ok known
index_stored (document ∷ rest) known =
    store_new (Dict.get document.data_id known) document known >>= index_stored rest

abbrev pub incomplete_issue : Uuid → ExpectedDocument → StoredDocument → List VerificationIssue
incomplete_issue u e a =
    if a.cognify_complete
    then []
    else (record { kind = incomplete; data_id = u; external_key = some e.external_key }) ∷ []

abbrev pub label_issue : Uuid → ExpectedDocument → StoredDocument → List VerificationIssue
label_issue u e a =
    if a.label == e.label
    then []
    else (record { kind = label_mismatch; data_id = u; external_key = some e.external_key }) ∷ []

-- The issues of one identity of the union.
unfoldable pub issues_at :
    Uuid → Option ExpectedDocument → Option StoredDocument → Result (List VerificationIssue)
issues_at u (some e) none =
    ok ((record { kind = missing; data_id = u; external_key = some e.external_key }) ∷ [])
issues_at u none (some a) =
    ok ((record { kind = unexpected; data_id = u; external_key = none }) ∷ [])
issues_at u none none = err runtime_error
issues_at u (some e) (some a) = ok (incomplete_issue u e a ++ label_issue u e a)

unfoldable pub issues_of : Expected → Stored → List Uuid → Result (List VerificationIssue)
unfolding issues_at Dict.get
issues_of expected stored [] = ok []
issues_of expected stored (u ∷ us) =
    let rest = issues_of expected stored us in
    issues_at u (Dict.get u expected) (Dict.get u stored) >>= λ here.
    rest >>= λ more. ok (here ++ more)

-- `sorted(expected_by_id.keys() | stored_by_id.keys(), key=str)`
unfoldable pub union_ids : Expected → Stored → List Uuid
unfolding Sets.sorted Sets.update Dict.keys text_leb
union_ids expected stored =
    Sets.sorted text_leb (Sets.update (Dict.keys stored) (Sets.update (Dict.keys expected) []))

unfoldable pub compare : Text → Text → Expected → Stored → Result VerificationReport
unfolding issues_of union_ids Dict.keys
compare name tenant expected stored =
    issues_of expected stored (union_ids expected stored) >>= λ issues. ok (record {
      dataset = name;
      tenant = tenant;
      checked = length (Dict.keys expected);
      issues = issues;
    })

module _ (P : Primitives) where
  unfoldable pub index_expected :
      Text → Text → Text → Text → List ExpectedDocument → Expected → Result Expected
  unfolding document_data_id normalize_external_key expect_new Dict.get
  index_expected runtime_key scope tenant name [] known = ok known
  index_expected runtime_key scope tenant name (item ∷ rest) known = do
    key ← normalize_external_key P item.external_key
    u ← document_data_id P runtime_key scope tenant name key
    more ← expect_new (Dict.get u known) u item known
    index_expected runtime_key scope tenant name rest more

  module _ {S : Type 0} (runtime : CogneeRuntime S) where
    -- The stored documents, read under the lock through a handle that is resolved again.
    unfoldable pub read_stored : DatasetHandle → Text → Text → Exec S Stored
    unfolding index_stored
    read_stored handle name tenant = with_lock runtime handle (
        Exec.◌>>=◌ (runtime.resolve_dataset name tenant) λ current.
          Exec.◌>>=◌ (runtime.list_documents current)
            λ documents. Exec.lift (index_stored documents []))

    unfoldable pub verify_dataset :
        Text → Text → List ExpectedDocument → Text → Exec S VerificationReport
    unfolding validate_runtime_key validate_coordinate index_expected read_stored compare
    verify_dataset runtime_key name expected tenant =
        Exec.◌>>=◌ (Exec.lift (validate_runtime_key runtime_key)) λ _.
          Exec.◌>>=◌ (Exec.lift (validate_coordinate tenant)) λ _.
            Exec.◌>>=◌ (Exec.lift (validate_coordinate name)) λ _.
              Exec.◌>>=◌ (runtime.resolve_dataset name tenant) λ handle.
                Exec.◌>>=◌
                  (Exec.lift
                    (index_expected runtime_key handle.identity_scope tenant name expected []))
                  λ by_id.
                    Exec.◌>>=◌ (read_stored handle name tenant)
                      λ stored. Exec.lift (compare name tenant by_id stored)
