-- ===== src/Engine/Entry/Holds/Agree.antt =====
-- The relations between a tracking record, a stored document and a desired state.
use cogindex.Base.{
  [], ◌∷◌, Bool, true, false, ◌&&◌, not, Option, none, some, Text, list_eq, nat_eq, ◌==◌, ◌≡◌,
  arith, all, contains, is_empty, ok,
}
use cogindex.Identity.{Primitives, Uuid, fingerprint_content, fingerprint_json}
use cogindex.Records.{DocumentRecord, record_eq}
use cogindex.Spec.Document.{CogneeDocumentSpec, annotations_json, weight_json, label_json}
use cogindex.Spec.Profile.{CognifyProfile}
use cogindex.Target.Reconcile.{same_derivatives, other_weight}
use cogindex.Testing.Documents.{FakeDocument}
use cogindex.Runtime.{DocumentPayload}
use cogindex.Engine.Entry.{TrackEntry, records, missing}

-- Two records differ in their label at most.
unfoldable pub agrees : DocumentRecord → DocumentRecord → Bool
unfolding same_derivatives other_weight
agrees r s = same_derivatives r s && not (other_weight r s)

-- The other direction, through a record that agrees with both.
pub agrees-common :
    (r a b : DocumentRecord) → agrees r a ≡ true → agrees r b ≡ true → agrees a b ≡ true
unfolding agrees
agrees-common r a b p q = ground arith

pub agrees-sym : (r s : DocumentRecord) → agrees r s ≡ true → agrees s r ≡ true
unfolding agrees
agrees-sym r s p = ground arith

module _ (P : Primitives) where
  abbrev pub Weighed : DocumentRecord → DocumentPayload → Type 0
  Weighed r p =
      fingerprint_json P (weight_json p.importance_weight) ≡ ok r.importance_weight_fingerprint

  abbrev pub Annotated : DocumentRecord → DocumentPayload → Type 0
  Annotated r p =
      fingerprint_json P (annotations_json p.external_metadata p.node_set)
      ≡ ok r.annotations_fingerprint

  abbrev pub Labelled : DocumentRecord → DocumentPayload → Type 0
  Labelled r p = fingerprint_json P (label_json p.label) ≡ ok r.metadata_fingerprint

  -- The document is complete, with the derivatives of its content alone, under the record's
  -- configuration, and its content, annotations and weight have the record's fingerprints.
  pub record IsBuilt (profile_of : Text → CognifyProfile) (r : DocumentRecord) (d : FakeDocument)
      : Type 0 where
    pub content : fingerprint_content P d.payload.content ≡ r.content_fingerprint
    pub annotations : Annotated r d.payload
    pub weight : Weighed r d.payload
    pub complete : d.cognify_complete ≡ true
    pub fragments : d.derived_fragments ≡ r.content_fingerprint ∷ []
    pub profile : d.derived_profile ≡ some (profile_of r.processing_fingerprint)

  pub IsBuilt-agrees :
      (profile_of : Text → CognifyProfile) (r s : DocumentRecord) (d : FakeDocument)
      → agrees r s ≡ true
      → IsBuilt profile_of r d
      → IsBuilt profile_of s d
  unfolding agrees
  IsBuilt-agrees profile_of r s d a b =
      let same : (s.content_fingerprint ≡ r.content_fingerprint)
          × (s.annotations_fingerprint ≡ r.annotations_fingerprint)
          × (s.importance_weight_fingerprint ≡ r.importance_weight_fingerprint)
          × (s.processing_fingerprint ≡ r.processing_fingerprint) =
        ground arith in
      record {
        content = cc (b.content, same.0);
        annotations = cc (b.annotations, same.1);
        weight = cc (b.weight, same.2);
        complete = b.complete;
        fragments = cc (b.fragments, same.0);
        profile = cc (b.profile, same.3);
      }

  -- The fingerprints of a desired state are those of its fields.
  pub record IsSpec (s : CogneeDocumentSpec) : Type 0 where
    pub content : fingerprint_content P s.content ≡ s.content_fingerprint
    pub annotations :
        fingerprint_json P (annotations_json s.external_metadata s.node_set)
        ≡ ok s.annotations_fingerprint
    pub weight :
        fingerprint_json P (weight_json s.importance_weight) ≡ ok s.importance_weight_fingerprint
    pub label : fingerprint_json P (label_json s.label) ≡ ok s.metadata_fingerprint

  -- What an entry says of the document of its identity, `none` if there is none.
  --   A present document has the weight of a possible record. If the document cannot be missing
  --   and all possible records agree with one, then it is there, built for that record, and has
  --   the label of one of them.
  pub record Holds (profile_of : Text → CognifyProfile) (u : Uuid) (e : TrackEntry)
      (o : Option FakeDocument) : Type 0 where
    pub nonempty : is_empty (records e.possible_states) ≡ false
    pub ids : all (λ r. r.data_id == u) (records e.possible_states) ≡ true
    pub weighed :
        (d : FakeDocument)
        → o ≡ some d
        → (r : DocumentRecord) × (contains r (records e.possible_states) ≡ true)
          × Weighed r d.payload
    pub settled :
        (r : DocumentRecord)
        → missing (some e) ≡ false
        → all (agrees r) (records e.possible_states) ≡ true
        → (d : FakeDocument) × (o ≡ some d)
          × IsBuilt profile_of r d
          × ((l : DocumentRecord) × (contains l (records e.possible_states) ≡ true)
              × Labelled l d.payload)

  -- The same of the entry of any key: what is not tracked is not stored.
  abbrev pub Tracks :
      (Text → CognifyProfile) → Uuid → Option TrackEntry → Option FakeDocument → Type 0
  Tracks profile_of u none o = o ≡ none
  Tracks profile_of u (some e) o = Holds profile_of u e o

  -- The document that a successful sync leaves for a desired record.
  pub record IsConverged (profile_of : Text → CognifyProfile) (r : DocumentRecord)
      (o : Option FakeDocument) : Type 0 where
    pub document : FakeDocument
    pub present : o ≡ some document
    pub built : IsBuilt profile_of r document
    pub labelled : Labelled r document.payload
