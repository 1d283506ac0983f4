-- ===== src/Testing/Documents.antt =====
-- FakeDocument, FakeDataset, and what the operations do to the documents of a dataset.
use cogindex.Base.{
  ℕ, suc, List, [], ◌∷◌, ◌++◌, Bool, true, false, Option, none, some, nat_eq, list_eq, ◌==◌, Text,
  Result, ok, err, PyError, leb, is_empty, not, if◌then◌else◌,
}
use cogindex.Base.Dict
use cogindex.Base.Dict.{Dict}
use cogindex.Base.Sets
use cogindex.Identity.{Primitives, Uuid, fingerprint_content}
use cogindex.Runtime.{DocumentPayload, StoredDocument}
use cogindex.Spec.Profile.{CognifyProfile}

pub record FakeDocument : Type 0 where
  pub payload : DocumentPayload
  pub cognify_complete : Bool
  pub derived_fragments : List Text
  pub derived_profile : Option CognifyProfile

pub record FakeDataset : Type 0 where
  pub dataset_id : Uuid
  pub name : Text
  pub tenant : Text
  pub documents : Dict Uuid FakeDocument

abbrev pub Documents : Type 0
Documents = Dict Uuid FakeDocument

unfoldable pub fresh_document : DocumentPayload → FakeDocument
fresh_document p = record {
  payload = p;
  cognify_complete = false;
  derived_fragments = [];
  derived_profile = none;
}

-- A purge: derivatives and completion go, the row stays.
unfoldable pub purged : FakeDocument → FakeDocument
purged d = record d { derived_fragments = []; derived_profile = none; cognify_complete = false }

-- A torn delete: derivatives go, and the row stays as it was.
unfoldable pub torn_document : FakeDocument → FakeDocument
torn_document d = record d { derived_fragments = []; derived_profile = none }

-- `for data_id in ids: ... documents.get(data_id)`, with a change to each that is there
unfoldable pub modify : (FakeDocument → FakeDocument) → List Uuid → Documents → Documents
unfolding Dict.get Dict.put
modify change [] docs = docs
modify change (u ∷ us) docs =
    modify change us (elim (Dict.get u docs) [ none ↦ docs | some d ↦ Dict.put u (change d) docs ])

-- `for data_id in ids: documents.pop(data_id, None)`
unfoldable pub remove_all : List Uuid → Documents → Documents
unfolding Dict.pop
remove_all [] docs = docs
remove_all (u ∷ us) docs = remove_all us (Dict.pop u docs)

unfoldable pub stored : Uuid × FakeDocument → StoredDocument
stored (u, d) = record {
  data_id = u;
  label = d.payload.label;
  external_metadata = d.payload.external_metadata;
  cognify_complete = d.cognify_complete;
}

module _ (P : Primitives) where
  -- `FakeDocument.derivatives_stale`
  unfoldable pub derivatives_stale : FakeDocument → Bool
  unfolding fingerprint_content Sets.minus
  derivatives_stale d =
      not (is_empty (Sets.minus d.derived_fragments (fingerprint_content P d.payload.content ∷ [])))

  -- The existing row keeps its weight, and is incomplete if the content's fingerprint differs.
  unfoldable pub rewritten : FakeDocument → DocumentPayload → FakeDocument
  unfolding fingerprint_content
  rewritten old p = record old {
    payload = record p { importance_weight = old.payload.importance_weight };
    cognify_complete =
        if fingerprint_content P old.payload.content == fingerprint_content P p.content
        then old.cognify_complete
        else false;
  }

  unfoldable pub added : Option FakeDocument → DocumentPayload → FakeDocument
  unfolding fresh_document rewritten
  added none p = fresh_document p
  added (some old) p = rewritten old p

  -- `_add_one`
  unfoldable pub add_one : Documents → DocumentPayload → Documents
  unfolding added Dict.get Dict.put
  add_one docs p = Dict.put p.data_id (added (Dict.get p.data_id docs) p) docs

  -- The loop of add_documents. `stop` holds the index from which a fault raises, if there is one.
  -- The result is the outcome, the documents and the identities that were written.
  unfoldable pub add_loop :
      Option (ℕ × PyError)
      → ℕ
      → List DocumentPayload
      → Documents
      → List Text
      → Result (Unit {0}) × Documents × List Text
  unfolding add_one
  add_loop stop index [] docs applied = (ok tt, docs, applied)
  add_loop none index (p ∷ ps) docs applied =
      add_loop none (suc index) ps (add_one docs p) (applied ++ p.data_id ∷ [])
  add_loop (some (limit, e)) index (p ∷ ps) docs applied =
      let rest =
        add_loop (some (limit, e)) (suc index) ps (add_one docs p) (applied ++ p.data_id ∷ []) in
      if leb limit index then (err e, docs, applied) else rest

  -- The incremental gate: a complete document is skipped.
  unfoldable pub cognified : CognifyProfile → FakeDocument → FakeDocument
  unfolding fingerprint_content Sets.add
  cognified profile d = if d.cognify_complete then d else record d {
    derived_fragments = Sets.add (fingerprint_content P d.payload.content) d.derived_fragments;
    derived_profile = some profile;
    cognify_complete = true;
  }
