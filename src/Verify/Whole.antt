-- ===== src/Verify/Whole.antt =====
-- What a run of verify_dataset whose report has no issues has found in the runtime.
use cogindex.Base.{
  List, [], true, Option, none, some, ◌≡◌, ◌⊎◌, refl, ap, Text, Result, ok, err, inl, inr, nat_eq,
  list_eq,
}
use cogindex.Base.Dict
use cogindex.Base.Dict.{Dict}
use cogindex.Base.Exec
use cogindex.Base.Exec.{Exec, >>=-returns, lift-returns}
use cogindex.Identity.{Primitives, Uuid, validate_runtime_key, validate_coordinate}
use cogindex.Runtime.{CogneeRuntime, DatasetHandle, StoredDocument}
use cogindex.Target.Apply.{with_lock}
use cogindex.Verify.{
  ExpectedDocument, VerificationReport, Expected, Stored, index_expected, index_stored, read_stored,
  compare, verify_dataset, report_ok,
}
use cogindex.Verify.Report.{Matches, compare-Matches}
use cogindex.Verify.Indexed.{
  Among, Identified, IsExpected, IsStored, index_expected-IsExpected, index_stored-IsStored,
}

-- A stored document is complete, with the label of an expected one.
abbrev pub Fits : ExpectedDocument → StoredDocument → Type 0
Fits e d = (d.cognify_complete ≡ true) × (d.label ≡ e.label)

module _ (P : Primitives) (runtime_key scope tenant name : Text) where
  -- Every expected document is stored under its identity and fits, and every stored document is an
  -- expected one, and fits.
  abbrev pub IsMatched : List ExpectedDocument → List StoredDocument → Type 0
  IsMatched items documents =
      ((e : ExpectedDocument)
        → Among e items
        → (d : StoredDocument) × Among d documents
          × Identified P runtime_key scope tenant name e d.data_id
          × Fits e d)
      × ((d : StoredDocument)
          → Among d documents
          → (e : ExpectedDocument) × Among e items
            × Identified P runtime_key scope tenant name e d.data_id
            × Fits e d)

  found_of :
      (e : ExpectedDocument) (o : Option StoredDocument)
      → Matches (some e) o
      → (d : StoredDocument) × (o ≡ some d) × Fits e d
  found_of e none m = absurd m
  found_of e (some d) m = (d, refl, m)

  wanted_of :
      (o : Option ExpectedDocument) (d : StoredDocument)
      → Matches o (some d)
      → (e : ExpectedDocument) × (o ≡ some e) × Fits e d
  wanted_of none d m = absurd m
  wanted_of (some e) d m = (e, refl, m)

  in_list : {A : Type 0} {o : Option A} {B : Type 0} (a : A) → (o ≡ none) → ((o ≡ some a) ⊎ B) → B
  in_list a gone (inl p) = absurd (cc)
  in_list a gone (inr b) = b

  dicts-IsMatched :
      (items : List ExpectedDocument) (documents : List StoredDocument) (expected : Expected)
      (stored : Stored)
      → IsExpected P runtime_key scope tenant name items [] expected
      → IsStored documents [] stored
      → ((u : Uuid) → Matches (Dict.get u expected) (Dict.get u stored))
      → IsMatched items documents
  unfolding Dict.get
  dicts-IsMatched items documents expected stored known held same = (
    λ e m.
        let (u, its, there) = known.listed e m in
        let (d, got, fits) = found_of e (Dict.get u stored) (rw there at (same u)) in
        let (among, is_id) = in_list d refl (held.only u d got) in (d, among, rw is_id its, fits),
    λ d m.
        let there = held.listed d m in
        let (e, got, fits) =
          wanted_of (Dict.get d.data_id expected) d (rw there at (same d.data_id)) in
        let (among, its) = in_list e refl (known.only d.data_id e got) in (e, among, its, fits),
  )

module _ {S : Type 0} (runtime : CogneeRuntime S) where
  released_returns :
      {A : Type 0} (released : Result (Unit {0}) × S) (r : Result A) {a : A} {t : S}
      → ◌≡◌ {A = Result A × S}
          (elim released.0 [ ok _ ↦ (r, released.1) | err e ↦ (err e, released.1) ])
          (ok a, t)
      → r ≡ ok a
  released_returns (ok x, u) r h = ap (λ p. p.0) h
  released_returns (err e, u) r h = absurd (cc h)

  -- A lock whose body and release return was entered.
  with_lock-returns :
      {A : Type 0} (handle : DatasetHandle) (body : Exec S A) {a : A} {s t : S}
      → with_lock runtime handle body s ≡ (ok a, t)
      → (u v : S) × (runtime.acquire handle s ≡ (ok tt, u)) × (body u ≡ (ok a, v))
  with_lock-returns {A} handle body {a} {s} {t} h = go (runtime.acquire handle s) refl h
    where
      go :
          (entered : Result (Unit {0}) × S)
          → runtime.acquire handle s ≡ entered
          → ◌≡◌ {A = Result A × S}
              (elim entered.0 [
                | err e ↦ (err e, entered.1)
                | ok _ ↦ (elim (runtime.release handle (body entered.1).1).0 [
                  | ok _ ↦ ((body entered.1).0, (runtime.release handle (body entered.1).1).1)
                  | err e ↦ (err e, (runtime.release handle (body entered.1).1).1)
                ])
              ])
              (ok a, t)
          → (u v : S) × (runtime.acquire handle s ≡ (ok tt, u)) × (body u ≡ (ok a, v))
      go (err e, u) q k = absurd (cc k)
      go (ok x, u) q k = (
        u,
        (body u).1,
        q,
        ap (λ r. (r, (body u).1))
            (released_returns (runtime.release handle (body u).1) (body u).0 k),
      )

  module _ (P : Primitives) (runtime_key name tenant : Text) (items : List ExpectedDocument) where
    -- The documents listed under the lock of the first handle, for the dataset as it is resolved
    -- there, are matched.
    abbrev pub Found : S → Type 0
    Found s =
        (handle : DatasetHandle) × (s1 : S) × (runtime.resolve_dataset name tenant s
          ≡ (ok handle, s1))
        × (s2 : S) × (runtime.acquire handle s1 ≡ (ok tt, s2))
        × (current : DatasetHandle) × (s3 : S) × (runtime.resolve_dataset name tenant s2
            ≡ (ok current, s3))
        × (documents : List StoredDocument) × (s4 : S) × (runtime.list_documents current s3
            ≡ (ok documents, s4))
        × IsMatched P runtime_key handle.identity_scope tenant name items documents

    -- The body of the lock in verify_dataset, after the dataset is resolved again
    abbrev index_listed : DatasetHandle → Exec S Stored
    index_listed current =
        Exec.◌>>=◌ (runtime.list_documents current)
          λ documents. Exec.lift (index_stored documents [])

    read_stored-returns :
        (handle : DatasetHandle) (stored : Stored) (s t : S)
        → read_stored P runtime handle name tenant s ≡ (ok stored, t)
        → (s2 : S) × (runtime.acquire handle s ≡ (ok tt, s2))
          × (current : DatasetHandle) × (s3 : S) × (runtime.resolve_dataset name tenant s2
              ≡ (ok current, s3))
          × (documents : List StoredDocument) × (s4 : S) × (runtime.list_documents current s3
              ≡ (ok documents, s4))
          × (index_stored documents [] ≡ ok stored)
    unfolding read_stored
    read_stored-returns handle stored s t h =
        let (s2, v, entered, body) =
          with_lock-returns handle (Exec.◌>>=◌ (runtime.resolve_dataset name tenant) index_listed)
            h in
        let (current, s3, resolved, more) =
          >>=-returns (runtime.resolve_dataset name tenant) index_listed body in
        let (documents, s4, listed, rest) =
          >>=-returns (runtime.list_documents current)
            (λ documents. Exec.lift (index_stored documents [])) more in
        (s2, entered, current, s3, resolved, documents, s4, listed, ap (λ p. p.0) rest)

    compared_found :
        (handle : DatasetHandle) (expected : Expected) (report : VerificationReport) (s t : S)
        → index_expected P runtime_key handle.identity_scope tenant name items [] ≡ ok expected
        → Exec.◌>>=◌
            (read_stored P runtime handle name tenant)
            (λ stored. Exec.lift (compare name tenant expected stored))
            s
          ≡ (ok report, t)
        → report_ok report ≡ true
        → (s2 : S) × (runtime.acquire handle s ≡ (ok tt, s2))
          × (current : DatasetHandle) × (s3 : S) × (runtime.resolve_dataset name tenant s2
              ≡ (ok current, s3))
          × (documents : List StoredDocument) × (s4 : S) × (runtime.list_documents current s3
              ≡ (ok documents, s4))
          × IsMatched P runtime_key handle.identity_scope tenant name items documents
    compared_found handle expected report s t known h good =
        let (stored, u, read, compared) =
          >>=-returns (read_stored P runtime handle name tenant) _ h in
        let (s2, entered, current, s3, resolved, documents, s4, listed, indexed) =
          read_stored-returns handle stored s u read in
        (
          s2,
          entered,
          current,
          s3,
          resolved,
          documents,
          s4,
          listed,
          dicts-IsMatched P runtime_key handle.identity_scope tenant name items documents expected
              stored
              (index_expected-IsExpected P runtime_key handle.identity_scope tenant name items []
                expected known)
              (index_stored-IsStored documents [] stored indexed)
              (compare-Matches name tenant expected stored report (ap (λ p. p.0) compared) good),
        )

    -- If verify_dataset returns a report without issues, then it has resolved the dataset, entered
    -- its lock, resolved it again and listed its documents; every expected document is listed under
    -- the identity of its normalized key, cognified and with the expected label; and every listed
    -- document is an expected one in this way.
    pub verify_dataset-Found :
        (report : VerificationReport) (s t : S)
        → verify_dataset P runtime runtime_key name items tenant s ≡ (ok report, t)
        → report_ok report ≡ true
        → Found s
    unfolding verify_dataset
    verify_dataset-Found report s t h good =
        let (x1, e1, h1) = lift-returns (validate_runtime_key runtime_key) _ h in
        let (x2, e2, h2) = lift-returns (validate_coordinate tenant) _ h1 in
        let (x3, e3, h3) = lift-returns (validate_coordinate name) _ h2 in
        let (handle, s1, resolved, h4) = >>=-returns (runtime.resolve_dataset name tenant) _ h3 in
        let (expected, known, h5) =
          lift-returns (index_expected P runtime_key handle.identity_scope tenant name items []) _
            h4 in
        let (s2, entered, current, s3, again, documents, s4, listed, matched) =
          compared_found handle expected report s1 t known h5 good in
        (handle, s1, resolved, s2, entered, current, s3, again, documents, s4, listed, matched)
