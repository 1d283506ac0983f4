-- ===== src/Tests/Plans.antt =====
-- A batch of several actions on one identity, and a run of verify_dataset.
use cogindex.Base.{[], ◌∷◌, true, none, some, codes, ◌≡◌, refl, ok, nat_eq, list_eq}
use cogindex.Base.Dict
use cogindex.Identity.Join.{canonical_join}
use cogindex.Identity.Decimal.{decimal}
use cogindex.Records.{record_eq}
use cogindex.Target.Reconcile.{DocumentAction, recreate, replace, payload_for}
use cogindex.Target.Apply.{Batch, empty_batch, collect, settle}
use cogindex.Target.Apply.Net.{IsNet, settle-IsNet}
use cogindex.Base.{List}
use cogindex.Base.Sets
use cogindex.Target.Reconcile.{delete}
use cogindex.Testing.Documents.{fresh_document, cognified}
use cogindex.Base.{pair_eq}
use cogindex.Testing.Faults.{Fake}
use cogindex.Verify.{ExpectedDocument, VerificationReport, verify_dataset, report_ok}
use cogindex.Verify.Whole.{Found, verify_dataset-Found}
use cogindex.Base.{Result, option_eq}
use cogindex.Testing.Fake.{fake_resolve, fake_acquire, fake_release, fake_list, fake_runtime}
use cogindex.Tests.{plain, main_id}
use cogindex.Tests.Deployment.{fake, payload}

-- A delete of an identity, the action that creates it again under another key, and one that was
-- stale and is replaced
abbrev gone : DocumentAction
gone = record {
  op = delete;
  external_key = codes "old.md";
  data_id = main_id;
  stale_data_ids = codes "other" ∷ [];
  payload = none;
}

abbrev again : DocumentAction
again = record {
  op = recreate;
  external_key = codes "a.md";
  data_id = main_id;
  stale_data_ids = main_id ∷ [];
  payload = some payload;
}

abbrev other : DocumentAction
other = record {
  op = replace;
  external_key = codes "b.md";
  data_id = codes "other";
  stale_data_ids = [];
  payload = some payload;
}

abbrev actions : List DocumentAction
actions = gone ∷ again ∷ other ∷ []

abbrev loop : Batch
loop = record {
  delete_ids = main_id ∷ codes "other" ∷ [];
  purge_ids = codes "other" ∷ [];
  recreate_ids = main_id ∷ [];
  payloads = (main_id, payload) ∷ (codes "other", payload) ∷ [];
  needs_cognify = true;
}

collected : collect actions empty_batch ≡ ok loop
unfolding collect Dict.put Sets.update list_eq nat_eq canonical_join decimal
collected = refl

settle-IsNet_example : IsNet main_id actions (settle loop)
settle-IsNet_example = settle-IsNet actions loop collected main_id

abbrev expected_document : ExpectedDocument
expected_document = record { external_key = codes "a.md"; label = none }

abbrev run_of : Result VerificationReport × Fake
run_of =
    verify_dataset plain (fake_runtime plain) (codes "main") (codes "docs") (expected_document ∷ [])
      (codes "tenant") fake

abbrev report : VerificationReport
report = record { dataset = codes "docs"; tenant = codes "tenant"; checked = 1; issues = [] }

verified : run_of ≡ (ok report, run_of.1)
unfolding verify_dataset list_eq nat_eq pair_eq canonical_join decimal option_eq fake_resolve
    fake_acquire fake_release fake_list cognified fresh_document payload_for
verified = refl

report_is_ok : report_ok report ≡ true
unfolding report_ok
report_is_ok = refl

verify_dataset-Found_example :
    Found
      (fake_runtime plain)
      plain
      (codes "main")
      (codes "docs")
      (codes "tenant")
      (expected_document ∷ [])
      fake
verify_dataset-Found_example =
    verify_dataset-Found (fake_runtime plain) plain (codes "main") (codes "docs") (codes "tenant")
      (expected_document ∷ []) report fake run_of.1 verified report_is_ok
