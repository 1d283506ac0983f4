-- ===== src/Testing/Effects/Pointwise.antt =====
-- The documents of a dataset as a function of their identities, and the steps of a batch on it.
use mathlib.Core.Option
use cogindex.Base.{
  List, [], ◌∷◌, Bool, Option, none, some, list_eq, nat_eq, ◌==◌, ◌≡◌, refl, ap, arith, contains,
  if◌then◌else◌,
}
use cogindex.Base.Dict
use cogindex.Base.Dict.{Dict, get-put, get-pop}
use cogindex.Identity.{Primitives, Uuid}
use cogindex.Runtime.{DatasetHandle, DocumentPayload}
use cogindex.Spec.Profile.{CognifyProfile}
use cogindex.Testing.Documents.{
  FakeDocument, FakeDataset, Documents, purged, torn_document, modify, remove_all, added, cognified,
}
use cogindex.Testing.Faults.{Fake}
use cogindex.Testing.Fake.{find_dataset}

abbrev pub View : Type 0
View = Uuid → Option FakeDocument

abbrev pub view_of : Option FakeDataset → View
view_of none u = none
view_of (some ds) u = Dict.get u ds.documents

unfoldable pub doc_at : DatasetHandle → Fake → View
unfolding find_dataset
doc_at h s = view_of (find_dataset h s)

abbrev pub Is : DatasetHandle → View → Fake → Type 0
Is h g s = (u : Uuid) → doc_at h s u ≡ g u

abbrev pub deleted_at : List Uuid → View → View
deleted_at ids g u = if contains u ids then none else g u

abbrev pub torn_at : List Uuid → View → View
torn_at ids g u = if contains u ids then Option.map torn_document (g u) else g u

abbrev pub purged_at : List Uuid → View → View
purged_at ids g u = if contains u ids then Option.map purged (g u) else g u

module _ (P : Primitives) where
  abbrev pub added_from : Option DocumentPayload → Option FakeDocument → Option FakeDocument
  added_from none o = o
  added_from (some p) o = some (added P o p)

  abbrev pub added_at : Dict Uuid DocumentPayload → View → View
  added_at payloads g u = added_from (Dict.get u payloads) (g u)

  abbrev pub cognified_at : Bool → CognifyProfile → View → View
  cognified_at flag profile g u = if flag then Option.map (cognified P profile) (g u) else g u

module _ (change : FakeDocument → FakeDocument)
    (twice : (d : FakeDocument) → change (change d) ≡ change d) where
  map-twice :
      (o : Option FakeDocument) → Option.map change (Option.map change o) ≡ Option.map change o
  map-twice none = refl
  map-twice (some d) = ap some (twice d)

  abbrev changed_one : Uuid → Option FakeDocument → Documents → Documents
  changed_one u none docs = docs
  changed_one u (some d) docs = Dict.put u (change d) docs

  get-changed_one :
      (u v : Uuid) (docs : Documents)
      → Dict.get v (changed_one u (Dict.get u docs) docs)
        ≡ (if v == u then Option.map change (Dict.get v docs) else Dict.get v docs)
  get-changed_one u v docs = go (Dict.get u docs) refl
    where
      go :
          (o : Option FakeDocument)
          → Dict.get u docs ≡ o
          → Dict.get v (changed_one u o docs)
            ≡ (if v == u then Option.map change (Dict.get v docs) else Dict.get v docs)
      go none e = ground arith
      go (some d) e = rw get-put (ground arith)

  pub get-modify :
      (v : Uuid) (ids : List Uuid) (docs : Documents)
      → Dict.get v (modify change ids docs)
        ≡ (if contains v ids then Option.map change (Dict.get v docs) else Dict.get v docs)
  unfolding modify
  get-modify v [] docs = refl
  get-modify v (u ∷ us) docs = ground (
    arith,
    get-modify v us (changed_one u (Dict.get u docs) docs),
    get-changed_one u v docs,
    map-twice (Dict.get v docs),
  )

pub get-remove_all :
    (v : Uuid) (ids : List Uuid) (docs : Documents)
    → Dict.get v (remove_all ids docs) ≡ (if contains v ids then none else Dict.get v docs)
unfolding remove_all
get-remove_all v [] docs = refl
get-remove_all v (u ∷ us) docs =
    ground (arith, get-remove_all v us (Dict.pop u docs), get-pop u v docs)
