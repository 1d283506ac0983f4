-- ===== src/Engine/Stages.antt =====
-- Every view that a batch may leave is one that the entries after precommit hold of.
use mathlib.Core.Option
use mathlib.Core.Option.{some-injective}
use cogindex.Base.{
  Bool, true, false, Option, none, some, Text, list_eq, nat_eq, ◌≡◌, refl, sym, ◌∙◌, contains,
  if◌then◌else◌, inl, inr,
}
use cogindex.Base.Dict
use cogindex.Base.Dict.{Dict}
use cogindex.Identity.{Primitives, Uuid}
use cogindex.Records.{record_eq}
use cogindex.Runtime.{DocumentPayload}
use cogindex.Spec.Profile.{CognifyProfile}
use cogindex.Spec.Document.{CogneeDocumentSpec, document_record_for}
use cogindex.Target.Apply.{Batch}
use cogindex.Target.Reconcile.{payload_for}
use cogindex.Testing.Documents.{FakeDocument, purged, torn_document, cognified}
use cogindex.Testing.Effects.Pointwise.{
  View, added_from, purged_at, deleted_at, torn_at, cognified_at,
}
use cogindex.Testing.Effects.Writes.{PartlyAdded}
use cogindex.Engine.Entry.{TrackEntry, previous}
use cogindex.Engine.Entry.Holds.{Tracks, IsSpec}
use cogindex.Engine.Entry.Holds.Closed.{
  IsUnsettled, Holds-gone, Holds-changed, Holds-cognified, Holds-added,
}
use cogindex.Engine.Round.{Tracking}

-- The entry lets derivatives go.
abbrev pub Clearable : Option TrackEntry → Type 0
Clearable none = Unit
Clearable (some e) = IsUnsettled e

module _ (P : Primitives) (profile_of : Text → CognifyProfile) (u : Uuid) where
  -- The payload is that of a desired state whose record is among those of the entry.
  abbrev pub Addable : Option TrackEntry → Option DocumentPayload → Type 0
  Addable e none = Unit
  Addable e (some p) =
      (s : CogneeDocumentSpec) × (processing : Text) × IsSpec P s
      × (p ≡ payload_for u s)
      × (contains (document_record_for s u processing) (previous e) ≡ true)

  Tracks-gone :
      (e : Option TrackEntry) (o : Option FakeDocument)
      → Clearable e
      → Tracks P profile_of u e o
      → Tracks P profile_of u e none
  Tracks-gone none o c t = refl
  Tracks-gone (some e) o c t = Holds-gone P profile_of u e o c t

  Tracks-changed :
      (f : FakeDocument → FakeDocument)
      → ((d : FakeDocument) → (f d).payload.importance_weight ≡ d.payload.importance_weight)
      → (e : Option TrackEntry) (o : Option FakeDocument) → Clearable e
      → Tracks P profile_of u e o
      → Tracks P profile_of u e (Option.map f o)
  Tracks-changed f keep e none c t = t
  Tracks-changed f keep none (some d) c t = absurd (cc t)
  Tracks-changed f keep (some e) (some d) c t = Holds-changed P profile_of u e d (f d) (keep d) c t

  Tracks-cognified :
      (profile : CognifyProfile) (flag : Bool) (e : Option TrackEntry) (o : Option FakeDocument)
      → Tracks P profile_of u e o
      → Tracks P profile_of u e (if flag then Option.map (cognified P profile) o else o)
  Tracks-cognified profile false e o t = t
  Tracks-cognified profile true e none t = t
  Tracks-cognified profile true none (some d) t = absurd (cc t)
  Tracks-cognified profile true (some e) (some d) t = Holds-cognified P profile_of u e profile d t

  Tracks-added :
      (e : Option TrackEntry) (q : Option DocumentPayload) (o : Option FakeDocument)
      → Addable e q
      → Tracks P profile_of u e o
      → Tracks P profile_of u e (added_from P q o)
  unfolding previous document_record_for
  Tracks-added e none o a t = t
  Tracks-added none (some p) o (s, processing, good, same, m) t = absurd (cc m)
  Tracks-added (some e) (some p) o (s, processing, good, same, m) t = rw same (
      Holds-added P profile_of u e s good (document_record_for s u processing)
        (refl, refl, refl, refl) m o t)

  -- A flag that is only set where the entry lets derivatives go
  Tracks-if :
      (flag : Bool) (e : Option TrackEntry) (o o' : Option FakeDocument)
      → (flag ≡ true → Clearable e)
      → (Clearable e → Tracks P profile_of u e o')
      → Tracks P profile_of u e o
      → Tracks P profile_of u e (if flag then o' else o)
  Tracks-if true e o o' c k t = k (c refl)
  Tracks-if false e o o' c k t = t

purged_weight :
    (d : FakeDocument) → (purged d).payload.importance_weight ≡ d.payload.importance_weight
unfolding purged
purged_weight d = refl

torn_weight :
    (d : FakeDocument) → (torn_document d).payload.importance_weight ≡ d.payload.importance_weight
unfolding torn_document
torn_weight d = refl

module _ (P : Primitives) (profile_of : Text → CognifyProfile) (id : Text → Uuid)
    (tracking : Tracking) where
  -- Each key's entry holds of the document of its identity, and there are no other documents.
  pub record Fits (g : View) : Type 0 where
    pub tracks : (k : Text) → Tracks P profile_of (id k) (Dict.get k tracking) (g (id k))
    pub owned : (u : Uuid) (d : FakeDocument) → g u ≡ some d → (k : Text) × (u ≡ id k)

  -- The batch clears and adds only what the entries of its identities allow.
  pub record Allows (b : Batch) (k : Text) : Type 0 where
    pub deleting : contains (id k) b.delete_ids ≡ true → Clearable (Dict.get k tracking)
    pub purging : contains (id k) b.purge_ids ≡ true → Clearable (Dict.get k tracking)
    pub adding : Addable P profile_of (id k) (Dict.get k tracking) (Dict.get (id k) b.payloads)

  owned_if :
      (c : Bool) (f : FakeDocument → FakeDocument) (o : Option FakeDocument) (d : FakeDocument)
      → (if c then Option.map f o else o) ≡ some d
      → (d' : FakeDocument) × (o ≡ some d')
  owned_if false f o d h = (d, h)
  owned_if true f none d h = absurd (cc h)
  owned_if true f (some d') d h = (d', refl)

  owned_gone :
      (c : Bool) (o : Option FakeDocument) (d : FakeDocument)
      → (if c then none else o) ≡ some d
      → o ≡ some d
  owned_gone false o d h = h
  owned_gone true o d h = absurd (cc h)

  module _ (b : Batch) (allows : (k : Text) → Allows b k) (g : View) where
    pub Fits-deleted : Fits g → Fits (deleted_at b.delete_ids g)
    Fits-deleted h = record {
      tracks = λ k.
          Tracks-if P profile_of (id k) (contains (id k) b.delete_ids) (Dict.get k tracking)
            (g (id k)) none (allows k).deleting
            (λ c. Tracks-gone P profile_of (id k) (Dict.get k tracking) (g (id k)) c (h.tracks k))
            (h.tracks k);
      owned = λ u d e. h.owned u d (owned_gone (contains u b.delete_ids) (g u) d e);
    }

    pub Fits-torn : Fits g → Fits (torn_at b.delete_ids g)
    Fits-torn h = record {
      tracks = λ k.
          Tracks-if P profile_of (id k) (contains (id k) b.delete_ids) (Dict.get k tracking)
            (g (id k)) (Option.map torn_document (g (id k))) (allows k).deleting
            (λ c.
              Tracks-changed P profile_of (id k) torn_document torn_weight (Dict.get k tracking)
                (g (id k)) c (h.tracks k))
            (h.tracks k);
      owned = λ u d e.
          let (d', e') = owned_if (contains u b.delete_ids) torn_document (g u) d e in
          h.owned u d' e';
    }

    pub Fits-purged : Fits g → Fits (purged_at b.purge_ids g)
    Fits-purged h = record {
      tracks = λ k.
          Tracks-if P profile_of (id k) (contains (id k) b.purge_ids) (Dict.get k tracking)
            (g (id k)) (Option.map purged (g (id k))) (allows k).purging
            (λ c.
              Tracks-changed P profile_of (id k) purged purged_weight (Dict.get k tracking)
                (g (id k)) c (h.tracks k))
            (h.tracks k);
      owned = λ u d e.
          let (d', e') = owned_if (contains u b.purge_ids) purged (g u) d e in h.owned u d' e';
    }

    pub Fits-partly :
        ((u : Uuid) (p : DocumentPayload)
          → Dict.get u b.payloads ≡ some p
          → (k : Text) × (u ≡ id k))
        → Fits g
        → (g' : View) → PartlyAdded P b.payloads g g'
        → Fits g'
    Fits-partly keys h g' partly = record {
      tracks = λ k. elim (partly (id k)) [
        | inl same ↦ rw same (h.tracks k)
        | inr (p, e, same) ↦ rw same (
            rw e at (
              Tracks-added P profile_of (id k) (Dict.get k tracking) (Dict.get (id k) b.payloads)
                (g (id k)) (allows k).adding (h.tracks k)))
      ];
      owned = λ u d e. elim (partly u) [
        | inl same ↦ h.owned u d (sym same ∙ e)
        | inr (p, q, same) ↦ keys u p q
      ];
    }

    pub Fits-cognified :
        (profile : CognifyProfile) (flag : Bool) → Fits g → Fits (cognified_at P flag profile g)
    Fits-cognified profile flag h = record {
      tracks = λ k.
          Tracks-cognified P profile_of (id k) profile flag (Dict.get k tracking) (g (id k))
            (h.tracks k);
      owned =
          λ u d e. let (d', e') = owned_if flag (cognified P profile) (g u) d e in h.owned u d' e';
    }
