-- ===== src/Testing/Fake.antt =====
-- The operations of FakeCogneeRuntime, and the runtime that they make.
use cogindex.Base.{
  ℕ, List, [], ◌∷◌, Option, none, some, Text, codes, Result, ok, err, PyError, value_error, list_eq,
  nat_eq, pair_eq, ◌==◌, if◌then◌else◌, map, text_leb,
}
use cogindex.Base.Dict
use cogindex.Base.Dict.{Dict}
use cogindex.Base.Exec
use cogindex.Base.Exec.{Exec}
use cogindex.Base.Sets
use cogindex.Identity.{Primitives, Uuid}
use cogindex.Identity.Join.{canonical_join}
use cogindex.Runtime.{CogneeRuntime, DatasetHandle, DocumentPayload, StoredDocument}
use cogindex.Spec.Profile.{CognifyProfile}
use cogindex.Target.Reconcile.{ordered}
use cogindex.Testing.Documents.{
  FakeDataset, Documents, purged, torn_document, modify, remove_all, stored, add_loop, cognified,
}
use cogindex.Testing.Faults.{
  resolve_dataset, add_documents, purge_document_memory, delete_documents, cognify_dataset,
  teardown_dataset, dataset_lock, Fault, called, lock_acquire, lock_release, Fake, next_fault, fire,
  log_call,
}

abbrev pub namespace_oid : Uuid
namespace_oid = codes "6ba7b812-9dad-11d1-80b4-00c04fd430c8"

-- `_validate_handle`
unfoldable pub validate_handle : DatasetHandle → Exec Fake (Unit {0})
validate_handle h s =
    if h.identity_scope == s.identity_scope then (ok tt, s) else (err value_error, s)

unfoldable pub find_dataset : DatasetHandle → Fake → Option FakeDataset
unfolding Dict.get
find_dataset h s = Dict.get (h.tenant, h.name) s.datasets

-- A change to the documents of a dataset that is there.
unfoldable pub change_documents :
    DatasetHandle → (Documents → Documents) → Option FakeDataset → Fake → Fake
unfolding Dict.put
change_documents h change none s = s
change_documents h change (some ds) s = record s {
  datasets = Dict.put (h.tenant, h.name) (record ds { documents = change ds.documents }) s.datasets;
}

abbrev pub id_of : Option FakeDataset → Option Uuid
id_of none = none
id_of (some ds) = some ds.dataset_id

unfoldable pub fake_resolve : Text → Text → Exec Fake DatasetHandle
unfolding fire Dict.get
fake_resolve name tenant = Exec.◌>>=◌ (fire resolve_dataset) λ _ s. (
  ok (record {
    name = name;
    tenant = tenant;
    identity_scope = s.identity_scope;
    dataset_id = id_of (Dict.get (tenant, name) s.datasets);
  }),
  s,
)

unfoldable pub fake_purge : DatasetHandle → List Uuid → Exec Fake (Unit {0})
unfolding validate_handle log_call fire find_dataset change_documents modify purged
fake_purge h ids = Exec.◌>>=◌ (validate_handle h) λ _ s.
    Exec.◌>>=◌ (fire purge_document_memory)
      (λ _ t. (ok tt, change_documents h (modify purged ids) (find_dataset h t) t))
      (log_call (called purge_document_memory) h.name ids s)

-- After a fault the rows are kept; a torn one has cleared their derivatives.
unfoldable pub finish_delete : Option Fault → DatasetHandle → List Uuid → Exec Fake (Unit {0})
unfolding find_dataset change_documents modify torn_document remove_all
finish_delete none h ids s = (ok tt, change_documents h (remove_all ids) (find_dataset h s) s)
finish_delete (some f) h ids s = (
  err f.exc,
  if f.torn then change_documents h (modify torn_document ids) (find_dataset h s) s else s,
)

unfoldable pub fake_delete : DatasetHandle → List Uuid → Exec Fake (Unit {0})
unfolding validate_handle log_call next_fault finish_delete
fake_delete h ids = Exec.◌>>=◌ (validate_handle h) λ _ s.
    let next = next_fault delete_documents (log_call (called delete_documents) h.name ids s) in
    finish_delete next.0 h ids next.1

unfoldable pub fake_teardown : DatasetHandle → Exec Fake (Unit {0})
unfolding validate_handle log_call fire Dict.pop
fake_teardown h = Exec.◌>>=◌ (validate_handle h) λ _ s.
    Exec.◌>>=◌ (fire teardown_dataset)
      (λ _ t. (ok tt, record t { datasets = Dict.pop (h.tenant, h.name) t.datasets }))
      (log_call (called teardown_dataset) h.name [] s)

abbrev pub listed : Option FakeDataset → List StoredDocument
listed none = []
listed (some ds) = map stored (Sets.sorted (λ a b. text_leb a.0 b.0) ds.documents)

unfoldable pub fake_list : DatasetHandle → Exec Fake (List StoredDocument)
unfolding validate_handle find_dataset stored Sets.sorted text_leb
fake_list h = Exec.◌>>=◌ (validate_handle h) λ _ s. (ok (listed (find_dataset h s)), s)

unfoldable pub fake_acquire : DatasetHandle → Exec Fake (Unit {0})
unfolding validate_handle log_call fire
fake_acquire h =
    Exec.◌>>=◌ (validate_handle h)
      λ _. Exec.◌>>=◌ (fire dataset_lock) λ _ s. (ok tt, log_call lock_acquire h.name [] s)

unfoldable pub fake_release : DatasetHandle → Exec Fake (Unit {0})
unfolding log_call
fake_release h s = (ok tt, log_call lock_release h.name [] s)

-- The index from which a fault of add_documents raises.
abbrev pub stop_at : Option Fault → Option (ℕ × PyError)
stop_at none = none
stop_at (some f) = elim f.after_items [ none ↦ some (0, f.exc) | some n ↦ some (n, f.exc) ]

-- The documents of the loop are those of the stored dataset.
unfoldable pub store_added : DatasetHandle → FakeDataset → Documents → List Text → Fake → Fake
unfolding log_call Dict.put
store_added h ds docs applied s = log_call (called add_documents) h.name applied (record s {
  datasets = Dict.put (h.tenant, h.name) (record ds { documents = docs }) s.datasets;
})

abbrev pub add_result : DatasetHandle → FakeDataset → Result (Unit {0}) → Exec Fake DatasetHandle
add_result h ds (ok x) t = (ok (record h { dataset_id = some ds.dataset_id }), t)
add_result h ds (err e) t = (err e, t)

module _ (P : Primitives) where
  unfoldable pub new_dataset : DatasetHandle → FakeDataset
  new_dataset h = record {
    dataset_id =
        P.uuid5 namespace_oid (canonical_join (codes "fake-dataset" ∷ h.tenant ∷ h.name ∷ []));
    name = h.name;
    tenant = h.tenant;
    documents = [];
  }

  -- `_ensure_dataset`, whose dataset is stored when its documents are
  unfoldable pub ensure_dataset : DatasetHandle → Option FakeDataset → FakeDataset
  unfolding new_dataset
  ensure_dataset h none = new_dataset h
  ensure_dataset h (some ds) = ds

  -- The loop, then the log entry of the `finally` clause.
  unfoldable pub finish_add :
      DatasetHandle → List DocumentPayload → Option Fault → Exec Fake DatasetHandle
  unfolding ensure_dataset add_loop store_added find_dataset
  finish_add h payloads fault s =
      let ds = ensure_dataset h (find_dataset h s) in
      let done = add_loop P (stop_at fault) 0 payloads ds.documents [] in
      add_result h ds done.0 (store_added h ds done.1 done.2 s)

  unfoldable pub add_checked : DatasetHandle → List DocumentPayload → Exec Fake DatasetHandle
  unfolding next_fault finish_add
  add_checked h [] s = (ok h, s)
  add_checked h (p ∷ ps) s =
      let next = next_fault add_documents s in finish_add h (p ∷ ps) next.0 next.1

  unfoldable pub fake_add : DatasetHandle → List DocumentPayload → Exec Fake DatasetHandle
  unfolding validate_handle add_checked
  fake_add h payloads = Exec.◌>>=◌ (validate_handle h) λ _. add_checked h payloads

  unfoldable pub cognify_documents : CognifyProfile → Documents → Documents
  unfolding modify cognified ordered Dict.keys
  cognify_documents profile docs = modify (cognified P profile) (ordered (Dict.keys docs)) docs

  unfoldable pub fake_cognify : DatasetHandle → CognifyProfile → Exec Fake (Unit {0})
  unfolding validate_handle log_call fire find_dataset change_documents cognify_documents
  fake_cognify h profile = Exec.◌>>=◌ (validate_handle h) λ _ s.
      Exec.◌>>=◌ (fire cognify_dataset)
        (λ _ t. (ok tt, change_documents h (cognify_documents profile) (find_dataset h t) t))
        (log_call (called cognify_dataset) h.name [] s)

  abbrev pub fake_runtime : CogneeRuntime Fake
  fake_runtime = record {
    resolve_dataset = fake_resolve;
    add_documents = fake_add;
    purge_document_memory = fake_purge;
    delete_documents = fake_delete;
    cognify_dataset = fake_cognify;
    teardown_dataset = fake_teardown;
    list_documents = fake_list;
    acquire = fake_acquire;
    release = fake_release;
  }
