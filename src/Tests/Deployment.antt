-- ===== src/Tests/Deployment.antt =====
-- Concrete runs and instances of the theorems on a deployment and its tracking records.
use cogindex.Base.{
  [], ◌∷◌, true, false, none, some, Text, codes, ◌≡◌, refl, inr, nat_eq, list_eq, arith, all, any,
  ◌==◌, ==_refl,
}
use mathlib.Core.Option
use mathlib.Core.Path.{subst}
use mathlib.Core.Option.{some-injective}
use cogindex.Base.Dict
use cogindex.Identity.Join.{canonical_join}
use cogindex.Identity.Decimal.{decimal}
use cogindex.Identity.{fingerprint_json, fingerprint_content, validate_json_object_keys}
use cogindex.Identity.Utf8.{utf8}
use cogindex.Records.{DocumentRecord, record_eq}
use cogindex.Runtime.{DatasetHandle, DocumentPayload}
use cogindex.Spec.Profile.{CognifyProfile}
use cogindex.Spec.Document.{annotations_json, weight_json, label_json, document_record_for}
use cogindex.Target.Statediff.{DiffAction}
use cogindex.Target.Reconcile.{replace, classify_write, payload_for, other_weight, same_derivatives}
use cogindex.Target.Apply.{Batch, with_lock, run_phases}
use cogindex.Testing.Effects.Pointwise.{deleted_at, torn_at}
use cogindex.Testing.Effects.Operations.{delete-Ends}
use cogindex.Base.{◌⊎◌}
use cogindex.Testing.Documents.{FakeDocument, FakeDataset, fresh_document, purged, added, cognified}
use cogindex.Testing.Inspection
use cogindex.Testing.Inspection.{
  unconverged_documents, only, other_profile, unconverged_documents-none,
}
use cogindex.Identity.{fingerprint_content}
use cogindex.Base.{pair_eq, Bool, Option}
use cogindex.Identity.Utf8.{utf8}
use cogindex.Testing.Faults.{Fake}
use cogindex.Base.{option_eq}
use cogindex.Testing.Fake.{fake_delete, fake_runtime, fake_add}
use cogindex.Testing.Effects.Outcome.{EndsAs}
use cogindex.Testing.Effects.Pointwise.{View, Is, doc_at}
use cogindex.Testing.Effects.Adding.{AreNamed}
use cogindex.Testing.Effects.Writes.{AddReturned, AddRaised, wanted, add-Ends}
use cogindex.Engine.Entry.{TrackEntry, records, extend, committed, previous, missing}
use cogindex.Engine.Entry.Holds.{Weighed, Holds, IsSpec, IsConverged}
use cogindex.Engine.Entry.Holds.Closed.{IsUnsettled}
use cogindex.Engine.Entry.Holds.Start.{IsUnsettled-of_classified, Holds-extend}
use cogindex.Engine.Entry.Holds.Committed.{Holds-committed}
use cogindex.Engine.Entry.Holds.Final.{
  IsConverged-of_fresh, IsConverged-of_replace, IsConverged-of_update,
}
use cogindex.Engine.Batch.{IsKept, Raised, after_batch, with_lock-Ends}
use cogindex.Tests.{plain, spec, main_id}

abbrev pub handle : DatasetHandle
handle = record {
  name = codes "docs";
  tenant = codes "tenant";
  identity_scope = codes "scope";
  dataset_id = none;
}

abbrev pub profile : CognifyProfile
profile = record {
  graph_model = none;
  chunker = none;
  chunk_size = none;
  custom_prompt = none;
  temporal_cognify = false;
}

abbrev pub profile_of : Text → CognifyProfile
profile_of t = profile

abbrev pub payload : DocumentPayload
payload = payload_for main_id spec

abbrev now : DocumentRecord
now = document_record_for spec main_id (codes "p")

abbrev earlier : DocumentRecord
earlier = record now { content_fingerprint = codes "other" }

abbrev document : FakeDocument
document = cognified plain profile (fresh_document payload)

abbrev dataset : FakeDataset
dataset = record {
  dataset_id = codes "id";
  name = codes "docs";
  tenant = codes "tenant";
  documents = (main_id, document) ∷ [];
}

abbrev pub fake : Fake
fake = record {
  datasets = ((codes "tenant", codes "docs"), dataset) ∷ [];
  calls = [];
  identity_scope = codes "scope";
  faults = [];
}

abbrev stored : View
stored = doc_at handle fake

stored_lem : Is handle stored fake
stored_lem u = refl

abbrev payloads : Dict.Dict Text DocumentPayload
payloads = (main_id, payload) ∷ []

payloads-AreNamed : AreNamed payloads
unfolding Dict.get payload_for
payloads-AreNamed u p e = ground arith

add-Ends_example :
    EndsAs
      (AddReturned plain handle stored payloads payloads-AreNamed)
      (AddRaised plain handle stored payloads payloads-AreNamed)
      (fake_add plain handle (wanted plain handle stored payloads payloads-AreNamed) fake)
add-Ends_example = add-Ends plain handle stored payloads payloads-AreNamed fake stored_lem

abbrev batch : Batch
batch = record {
  delete_ids = [];
  purge_ids = [];
  recreate_ids = main_id ∷ [];
  payloads = payloads;
  needs_cognify = true;
}

abbrev Anything : View → Type 0
Anything g = Unit

batch-IsKept : IsKept plain handle stored batch profile Anything
batch-IsKept = record {
  named = payloads-AreNamed;
  before = tt;
  torn = tt;
  deleted = tt;
  purged = tt;
  partly = λ g' p. tt;
}

with_lock-Ends_example :
    EndsAs {A = Unit {0}}
      (λ _. Is handle (after_batch plain handle stored batch profile Anything))
      (Raised plain handle stored batch profile Anything)
      (with_lock
        (fake_runtime plain)
        handle
        (run_phases (fake_runtime plain) handle profile batch)
        fake)
with_lock-Ends_example =
    with_lock-Ends plain handle stored batch profile Anything batch-IsKept fake stored_lem

abbrev entry : TrackEntry
entry = record { possible_states = some earlier ∷ []; may_be_missing = true }

replaced :
    classify_write DiffAction.replace now (previous (some entry)) (missing (some entry)) ≡ replace
unfolding classify_write previous missing document_record_for list_eq nat_eq canonical_join decimal
replaced = refl

IsUnsettled-of_classified_example : IsUnsettled (extend (some now) (some entry))
IsUnsettled-of_classified_example =
    IsUnsettled-of_classified DiffAction.replace now (some entry) (inr replaced)

pub spec-IsSpec : IsSpec plain spec
unfolding annotations_json weight_json label_json validate_json_object_keys utf8 fingerprint_json
spec-IsSpec = record { content = refl; annotations = refl; weight = refl; label = refl }

entry-Holds : Holds plain profile_of main_id entry (some document)
unfolding missing document_record_for list_eq nat_eq canonical_join decimal weight_json
    fingerprint_json validate_json_object_keys utf8 cognified fresh_document records record_eq
    payload_for
entry-Holds = record {
  nonempty = refl;
  ids = refl;
  weighed = λ d p. (
    earlier,
    refl,
    subst (λ x. Weighed plain earlier x.payload) (some-injective document d p) refl,
  );
  settled = λ r m a. absurd (cc m);
}

-- A document that was built from the desired state
document-IsConverged : IsConverged plain profile_of now (some document)
unfolding fresh_document added
document-IsConverged = IsConverged-of_fresh plain profile_of main_id spec spec-IsSpec (codes "p")

now_id : (now.data_id == main_id) ≡ true
unfolding document_record_for
now_id = ==_refl main_id

Holds-committed_example : Holds plain profile_of main_id (committed now) (some document)
Holds-committed_example =
    Holds-committed plain profile_of main_id now (some document) now_id document-IsConverged

same_weight : any (other_weight now) (previous (some entry)) ≡ false
unfolding previous records other_weight document_record_for list_eq nat_eq
same_weight = refl

IsConverged-of_replace_example :
    IsConverged plain profile_of now
      (some (cognified plain profile (added plain (Option.map purged (some document)) payload)))
IsConverged-of_replace_example =
    IsConverged-of_replace plain profile_of main_id spec spec-IsSpec (codes "p") (some entry)
      (some document) same_weight entry-Holds

same_weight_now : any (other_weight now) (previous (some (committed now))) ≡ false
unfolding previous records committed other_weight document_record_for list_eq nat_eq
same_weight_now = refl

same_now : all (same_derivatives now) (previous (some (committed now))) ≡ true
unfolding previous records committed same_derivatives document_record_for list_eq nat_eq utf8
    fingerprint_content canonical_join decimal
same_now = refl

certain_now : missing (some (committed now)) ≡ false
unfolding missing committed
certain_now = refl

IsConverged-of_update_example :
    (d : FakeDocument) × (added plain (some document) payload ≡ d)
    × (d.cognify_complete ≡ true)
    × IsConverged plain profile_of now (some d)
IsConverged-of_update_example =
    IsConverged-of_update plain profile_of main_id spec spec-IsSpec (codes "p")
      (some (committed now)) (some document) same_weight_now same_now certain_now
      (Holds-committed plain profile_of main_id now (some document) now_id document-IsConverged)

own : (r : DocumentRecord) → some now ≡ some r → (r.data_id == main_id) ≡ true
own r e = subst (λ x. (x.data_id == main_id) ≡ true) (some-injective now r e) now_id

Holds-extend_example :
    Holds plain profile_of main_id (extend (some now) (some entry)) (some document)
Holds-extend_example =
    Holds-extend plain profile_of main_id (some now) (some entry) (some document) own
      (λ e. absurd (cc e)) entry-Holds

abbrev any_profile : CognifyProfile → Option CognifyProfile → Bool
any_profile p q = true

clean :
    unconverged_documents plain any_profile (codes "tenant") (codes "docs") (some profile) fake ≡ []
unfolding unconverged_documents list_eq nat_eq pair_eq cognified fresh_document payload_for
    fingerprint_content utf8
clean = refl

found : Inspection.document (codes "tenant") (codes "docs") main_id fake ≡ some document
unfolding Inspection.document list_eq nat_eq pair_eq canonical_join decimal
found = refl

unconverged_documents-none_example :
    (document.cognify_complete ≡ true)
    × (only (fingerprint_content plain document.payload.content) document.derived_fragments ≡ true)
    × (other_profile plain any_profile (some profile) document ≡ false)
unconverged_documents-none_example =
    unconverged_documents-none plain any_profile (codes "tenant") (codes "docs") (some profile) fake
      clean main_id document found

delete-Ends_example :
    EndsAs
      (λ _. Is handle (deleted_at (main_id ∷ []) stored))
      (λ t. Is handle stored t ⊎ Is handle (torn_at (main_id ∷ []) stored) t)
      (fake_delete handle (main_id ∷ []) fake)
delete-Ends_example = delete-Ends handle stored (main_id ∷ []) fake stored_lem
