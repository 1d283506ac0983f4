-- ===== src/Testing/Effects/Operations.antt =====
-- The effect of each operation of FakeCogneeRuntime on each document.
use mathlib.Core.Option
use cogindex.Base.{
  List, Option, none, some, list_eq, nat_eq, pair_eq, ◌==◌, ==_refl, ◌≡◌, refl, sym, ◌⊎◌, inl, inr,
  contains, Text, if◌then◌else◌, Bool-cases,
}
use cogindex.Base.Dict
use cogindex.Base.Dict.{Dict, get-put}
use cogindex.Identity.{Uuid}
use cogindex.Runtime.{DatasetHandle}
use cogindex.Base.Sets.{contains-sorted}
use cogindex.Base.{text_leb}
use cogindex.Target.Reconcile.{ordered}
use cogindex.Testing.Documents.{
  FakeDocument, FakeDataset, Documents, purged, torn_document, modify, remove_all,
}
use cogindex.Testing.Faults.{
  Fake, Fault, FaultOp, CallOp, purge_document_memory, delete_documents, dataset_lock, called, fire,
  next_fault, log_call, raise_fault,
}
use cogindex.Testing.Fake.{
  find_dataset, change_documents, validate_handle, fake_purge, fake_delete, finish_delete,
  fake_acquire, fake_release,
}
use cogindex.Testing.Effects.Outcome.{EndsAs, Ends-continue, Ends-weaken}
use cogindex.Testing.Effects.Pointwise.{
  View, doc_at, Is, deleted_at, torn_at, purged_at, get-modify, get-remove_all,
}

pub contains-ordered : (u : Uuid) (us : List Uuid) → contains u (ordered us) ≡ contains u us
unfolding ordered
contains-ordered u us = contains-sorted text_leb u us

-- What does not touch the datasets does not touch a document.
pub doc_at-log_call :
    (h : DatasetHandle) (op : CallOp) (name : Text) (detail : List Text) (s : Fake)
    → doc_at h (log_call op name detail s) ≡ doc_at h s
unfolding doc_at log_call
doc_at-log_call h op name detail s = refl

pub doc_at-next_fault :
    (h : DatasetHandle) (op : FaultOp) (s : Fake) → doc_at h (next_fault op s).1 ≡ doc_at h s
unfolding doc_at next_fault
doc_at-next_fault h op s = refl

pub view_of-changed :
    (h : DatasetHandle) (change : Documents → Documents) (o : Option FakeDataset) (s : Fake)
    (u : Uuid) (after : Option FakeDocument → Option FakeDocument)
    → find_dataset h s ≡ o
    → after none ≡ none
    → ((docs : Documents) → Dict.get u (change docs) ≡ after (Dict.get u docs))
    → doc_at h (change_documents h change o s) u ≡ after (doc_at h s u)
unfolding doc_at change_documents
view_of-changed h change none s u after e z c = rw e (sym z)
view_of-changed h change (some ds) s u after e z c = rw (get-put, ==_refl, e) (c ds.documents)

purged_twice : (d : FakeDocument) → purged (purged d) ≡ purged d
unfolding purged
purged_twice d = refl

torn_twice : (d : FakeDocument) → torn_document (torn_document d) ≡ torn_document d
unfolding torn_document
torn_twice d = refl

module _ (h : DatasetHandle) (s : Fake) (u : Uuid) where
  pub doc_at-modify :
      (change : FakeDocument → FakeDocument)
      → ((d : FakeDocument) → change (change d) ≡ change d)
      → (ids : List Uuid)
      → doc_at h (change_documents h (modify change ids) (find_dataset h s) s) u
        ≡ (if contains u ids then Option.map change (doc_at h s u) else doc_at h s u)
  doc_at-modify change twice ids =
      view_of-changed h (modify change ids) (find_dataset h s) s u
        (λ o. if contains u ids then Option.map change o else o) refl
        (elim (Bool-cases (contains u ids)) [ inl c ↦ rw c | inr c ↦ rw c ])
        (get-modify change twice u ids)

  pub doc_at-remove_all :
      (ids : List Uuid)
      → doc_at h (change_documents h (remove_all ids) (find_dataset h s) s) u
        ≡ (if contains u ids then none else doc_at h s u)
  doc_at-remove_all ids =
      view_of-changed h (remove_all ids) (find_dataset h s) s u
        (λ o. if contains u ids then none else o) refl
        (elim (Bool-cases (contains u ids)) [ inl c ↦ rw c | inr c ↦ rw c ]) (get-remove_all u ids)

-- An operation that raises before its work changes no document.
module _ (h : DatasetHandle) (g : View) where
  abbrev pub Unchanged : Fake → Type 0
  Unchanged s = Is h g s

  pub validate-Ends : (s : Fake) → Is h g s → EndsAs (λ _. Is h g) (Is h g) (validate_handle h s)
  unfolding validate_handle
  validate-Ends s i = elim (Bool-cases (h.identity_scope == s.identity_scope)) [
    | inl e ↦ rw e i
    | inr e ↦ rw e i
  ]

  pub Is-next_fault : (op : FaultOp) (s : Fake) → Is h g s → Is h g (next_fault op s).1
  Is-next_fault op s i = rw doc_at-next_fault i

  pub fire-Ends : (op : FaultOp) (s : Fake) → Is h g s → EndsAs (λ _. Is h g) (Is h g) (fire op s)
  unfolding fire
  fire-Ends op s i = go (next_fault op s).0 (next_fault op s).1 (Is-next_fault op s i)
    where
      go :
          (f : Option Fault) (t : Fake) → Is h g t → EndsAs (λ _. Is h g) (Is h g) (raise_fault f t)
      go none t j = j
      go (some f) t j = j

  -- purge_document_memory returns with the listed documents purged and the others as they were, or
  -- raises with every document as it was.
  pub purge-Ends :
      (ids : List Uuid) (s : Fake)
      → Is h g s
      → EndsAs (λ _. Is h (purged_at ids g)) (Is h g) (fake_purge h ids s)
  unfolding fake_purge
  purge-Ends ids s i =
      Ends-continue (λ _. Is h g) (Is h g) _ (validate_handle h s).0 _ _ (validate-Ends s i)
        λ _ t j.
          Ends-continue (λ _. Is h g) (Is h g) _ _ _ _
            (fire-Ends purge_document_memory (log_call (called purge_document_memory) h.name ids t)
              (rw doc_at-log_call j))
            λ _ v k u. rw (doc_at-modify h v u purged purged_twice ids, k u)

  -- A delete that raises has changed no document, or has torn those it was to delete.
  finish_delete-Ends :
      (f : Option Fault) (ids : List Uuid) (s : Fake)
      → Is h g s
      → EndsAs
          (λ _. Is h (deleted_at ids g))
          (λ t. Is h g t ⊎ Is h (torn_at ids g) t)
          (finish_delete f h ids s)
  unfolding finish_delete
  finish_delete-Ends none ids s i = λ u. rw (doc_at-remove_all h s u ids, i u)
  finish_delete-Ends (some f) ids s i = elim (Bool-cases f.torn) [
    | inl torn ↦ rw torn (inr (λ u. rw (doc_at-modify h s u torn_document torn_twice ids, i u)))
    | inr whole ↦ rw whole (inl i)
  ]

  -- delete_documents returns with the listed documents gone, or raises with every document as it
  -- was, or with the listed ones torn; the others are as they were.
  pub delete-Ends :
      (ids : List Uuid) (s : Fake)
      → Is h g s
      → EndsAs
          (λ _. Is h (deleted_at ids g))
          (λ t. Is h g t ⊎ Is h (torn_at ids g) t)
          (fake_delete h ids s)
  unfolding fake_delete
  delete-Ends ids s i =
      Ends-continue (λ _. Is h g) (λ t. Is h g t ⊎ Is h (torn_at ids g) t) _ (validate_handle h s).0
        _ _
        (Ends-weaken (λ _. Is h g) (λ _. Is h g) (Is h g) _ _ _ (validate-Ends s i) (λ _ j. j) inl)
        λ _ t j.
          finish_delete-Ends (next_fault delete_documents (logged t)).0 ids _
            (Is-next_fault delete_documents (logged t) (rw doc_at-log_call j))
    where
      logged : Fake → Fake
      logged t = log_call (called delete_documents) h.name ids t

  pub acquire-Ends : (s : Fake) → Is h g s → EndsAs (λ _. Is h g) (Is h g) (fake_acquire h s)
  unfolding fake_acquire
  acquire-Ends s i =
      Ends-continue (λ _. Is h g) (Is h g) _ (validate_handle h s).0 _ _ (validate-Ends s i)
        λ _ t j.
          Ends-continue (λ _. Is h g) (Is h g) _ (fire dataset_lock t).0 _ _
            (fire-Ends dataset_lock t j) λ _ v k. rw doc_at-log_call k

  pub release-Ends : (s : Fake) → Is h g s → Is h g (fake_release h s).1
  unfolding fake_release
  release-Ends s i = rw doc_at-log_call i
