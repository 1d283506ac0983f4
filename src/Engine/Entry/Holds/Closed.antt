-- ===== src/Engine/Entry/Holds/Closed.antt =====
-- No step of a sync on the document of a key makes the entry say something false.
use cogindex.Base.{
  true, false, Option, none, some, Text, list_eq, nat_eq, ◌≡◌, refl, sym, ◌∙◌, ap, arith, all,
  contains,
}
use mathlib.Core.Path.{subst}
use mathlib.Core.Option.{some-injective}
use cogindex.Base.Lists.{all-contains}
use cogindex.Identity.{Primitives, Uuid}
use cogindex.Records.{DocumentRecord, record_eq}
use cogindex.Spec.Document.{CogneeDocumentSpec}
use cogindex.Spec.Profile.{CognifyProfile}
use cogindex.Target.Reconcile.{payload_for}
use cogindex.Testing.Documents.{FakeDocument, fresh_document, rewritten, added, cognified}
use cogindex.Engine.Entry.{TrackEntry, records, missing}
use cogindex.Engine.Entry.Holds.Agree.{
  agrees, agrees-sym, Weighed, IsBuilt, IsBuilt-agrees, IsSpec, Holds, Labelled,
}

-- The entry asks nothing of derivatives.
abbrev pub IsUnsettled : TrackEntry → Type 0
IsUnsettled e =
    (r : DocumentRecord)
    → missing (some e) ≡ false
    → all (agrees r) (records e.possible_states) ≡ true
    → ⊥

module _ (P : Primitives) (profile_of : Text → CognifyProfile) (u : Uuid) (e : TrackEntry) where
  -- Derivatives may go, and the whole document too, while the entry is unsettled.
  pub Holds-gone :
      (o : Option FakeDocument)
      → IsUnsettled e
      → Holds P profile_of u e o
      → Holds P profile_of u e none
  Holds-gone o unsettled h = record {
    nonempty = h.nonempty;
    ids = h.ids;
    weighed = λ d p. absurd (cc p);
    settled = λ r m a. absurd (unsettled r m a);
  }

  module _ (d d' : FakeDocument)
      (same : d'.payload.importance_weight ≡ d.payload.importance_weight) where
    -- A change that keeps the weight, and keeps what a settled entry says.
    Holds-step :
        ((r : DocumentRecord)
          → missing (some e) ≡ false
          → all (agrees r) (records e.possible_states) ≡ true
          → IsBuilt P profile_of r d
          → (l : DocumentRecord) → contains l (records e.possible_states) ≡ true
          → Labelled P l d.payload
          → IsBuilt P profile_of r d'
            × ((k : DocumentRecord) × (contains k (records e.possible_states) ≡ true)
                × Labelled P k d'.payload))
        → Holds P profile_of u e (some d)
        → Holds P profile_of u e (some d')
    Holds-step keep h = record {
      nonempty = h.nonempty;
      ids = h.ids;
      weighed = λ x p.
          let (r, c, w) = h.weighed d refl in
          (r, c, subst (λ y. Weighed P r y.payload) (some-injective d' x p) (rw same w));
      settled = λ r m a.
          let (x, p, b, (l, c, lab)) = h.settled r m a in
          let back = sym (some-injective d x p) in
          let b' = subst (IsBuilt P profile_of r) back b in
          let lab' = subst (λ y. Labelled P l y.payload) back lab in
          let (built, label) = keep r m a b' l c lab' in (d', refl, built, label);
    }

    pub Holds-changed :
        IsUnsettled e → Holds P profile_of u e (some d) → Holds P profile_of u e (some d')
    Holds-changed unsettled = Holds-step (λ r m a b l c lab. absurd (unsettled r m a))

  pub cognified_complete :
      (profile : CognifyProfile) (d : FakeDocument)
      → d.cognify_complete ≡ true
      → cognified P profile d ≡ d
  unfolding cognified
  cognified_complete profile d h = rw h

  payload-cognified :
      (profile : CognifyProfile) (d : FakeDocument) → (cognified P profile d).payload ≡ d.payload
  unfolding cognified
  payload-cognified profile d = ground arith

  -- If an entry holds of a document, then it holds of the cognified document.
  pub Holds-cognified :
      (profile : CognifyProfile) (d : FakeDocument)
      → Holds P profile_of u e (some d)
      → Holds P profile_of u e (some (cognified P profile d))
  Holds-cognified profile d =
      Holds-step d (cognified P profile d)
        (ap (λ p. p.importance_weight) (payload-cognified profile d))
        λ r m a b l c lab.
          let e = cognified_complete profile d b.complete in (rw e b, (l, c, rw e lab))

  module _ (s : CogneeDocumentSpec) (good : IsSpec P s) (desired : DocumentRecord)
      (fps : (desired.content_fingerprint ≡ s.content_fingerprint)
        × (desired.annotations_fingerprint ≡ s.annotations_fingerprint)
        × (desired.importance_weight_fingerprint ≡ s.importance_weight_fingerprint)
        × (desired.metadata_fingerprint ≡ s.metadata_fingerprint)) where
    pub rewritten-IsBuilt :
        (d : FakeDocument)
        → IsBuilt P profile_of desired d
        → IsBuilt P profile_of desired (rewritten P d (payload_for u s))
    unfolding rewritten payload_for
    rewritten-IsBuilt d b = record {
      content = good.content ∙ sym fps.0;
      annotations = rw fps.1 good.annotations;
      weight = b.weight;
      complete = ground (arith, b.content, b.complete, good.content, fps.0);
      fragments = b.fragments;
      profile = b.profile;
    }

    -- Re-adding a document never unsettles its entry, if the desired record is a possible one.
    pub Holds-added :
        contains desired (records e.possible_states) ≡ true
        → (o : Option FakeDocument) → Holds P profile_of u e o
        → Holds P profile_of u e (some (added P o (payload_for u s)))
    unfolding added rewritten payload_for fresh_document
    Holds-added member none h = record {
      nonempty = h.nonempty;
      ids = h.ids;
      weighed = λ x p. (
        desired,
        member,
        subst (λ (y : FakeDocument). Weighed P desired y.payload) (some-injective _ x p)
            (rw (fps.2) good.weight),
      );
      settled = λ r m a. let (x, p, b, l) = h.settled r m a in absurd (cc p);
    }
    Holds-added member (some d) h =
        Holds-step d (rewritten P d (payload_for u s)) refl
          (λ r m a b l c lab.
            let to = all-contains (agrees r) desired _ a member in
            let back = IsBuilt-agrees P profile_of r desired d to b in
            (
              IsBuilt-agrees P profile_of desired r _ (agrees-sym r desired to)
                  (rewritten-IsBuilt d back),
              (desired, member, rw (fps.3) good.label),
            ))
          h
