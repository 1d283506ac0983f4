-- ===== src/Engine/Entry/Holds/Final.antt =====
-- What the steps of a successful sync leave of the document of a key: the document of its desired
-- record.
use mathlib.Core.Path.{subst}
use mathlib.Core.Option
use mathlib.Core.Option.{some-injective}
use cogindex.Base.{
  List, [], ◌∷◌, true, false, Option, none, some, Text, list_eq, nat_eq, ◌==◌, ==_sound, ◌≡◌, refl,
  ◌∙◌, ap, arith, all, any, contains, ok,
}
use cogindex.Base.Lists.{all-contains}
use cogindex.Identity.{Primitives, Uuid}
use cogindex.Records.{DocumentRecord, record_eq}
use cogindex.Spec.Document.{CogneeDocumentSpec, document_record_for}
use cogindex.Spec.Profile.{CognifyProfile}
use cogindex.Target.Reconcile.{payload_for, other_weight, same_derivatives}
use cogindex.Testing.Documents.{FakeDocument, fresh_document, purged, rewritten, added, cognified}
use cogindex.Engine.Entry.{TrackEntry, records, previous, missing}
use cogindex.Engine.Entry.Holds.Agree.{
  agrees, Weighed, IsSpec, Holds, Tracks, Labelled, IsConverged,
}
use cogindex.Engine.Entry.Holds.Closed.{rewritten-IsBuilt}

module _ (P : Primitives) (profile_of : Text → CognifyProfile) (u : Uuid) (s : CogneeDocumentSpec)
    (good : IsSpec P s) (processing : Text) where
  abbrev pub desired : DocumentRecord
  desired = document_record_for s u processing

  -- An incomplete document without derivatives, of the desired payload up to a weight with the
  -- desired fingerprint, is what cognify makes the desired document.
  IsConverged-of_bare :
      (d : FakeDocument)
      → d.cognify_complete ≡ false
      → d.derived_fragments ≡ []
      → d.payload.content ≡ s.content
      → d.payload.label ≡ s.label
      → d.payload.external_metadata ≡ s.external_metadata
      → d.payload.node_set ≡ s.node_set
      → Weighed P desired d.payload
      → IsConverged P profile_of desired (some (cognified P (profile_of processing) d))
  unfolding cognified document_record_for
  IsConverged-of_bare d bare none_left content label metadata nodes weight = record {
    document = cognified P (profile_of processing) d;
    present = refl;
    built = record {
      content = rw (bare, content) good.content;
      annotations = rw (bare, metadata, nodes) good.annotations;
      weight = rw bare weight;
      complete = rw bare;
      fragments = rw (bare, none_left, content) (ap (λ t. t ∷ []) good.content);
      profile = rw bare;
    };
    labelled = rw (bare, label) good.label;
  }

  pub IsConverged-of_fresh :
      IsConverged P profile_of desired
        (some (cognified P (profile_of processing) (added P none (payload_for u s))))
  unfolding added fresh_document payload_for document_record_for
  IsConverged-of_fresh =
      IsConverged-of_bare (fresh_document (payload_for u s)) refl refl refl refl refl refl
        good.weight

  rewritten-purged :
      (d : FakeDocument) → (rewritten P (purged d) (payload_for u s)).cognify_complete ≡ false
  unfolding rewritten purged
  rewritten-purged d = ground arith

  IsConverged-of_purged :
      (d : FakeDocument)
      → Weighed P desired d.payload
      → IsConverged P profile_of desired
          (some (cognified P (profile_of processing) (added P (some (purged d)) (payload_for u s))))
  unfolding added rewritten purged payload_for document_record_for
  IsConverged-of_purged d weight =
      IsConverged-of_bare (rewritten P (purged d) (payload_for u s)) (rewritten-purged d) refl refl
        refl refl refl weight

  no_other_weight :
      (r : DocumentRecord) (prev : List DocumentRecord)
      → any (other_weight desired) prev ≡ false
      → contains r prev ≡ true
      → r.importance_weight_fingerprint ≡ desired.importance_weight_fingerprint
  unfolding other_weight
  no_other_weight r [] h c = absurd (cc)
  no_other_weight r (x ∷ prev) h c = ground (arith, no_other_weight r prev)

  -- If the entry of a desired state holds of the stored document, if there is one, and all previous
  -- records have the desired weight, then purging, adding and cognifying leaves the converged
  -- document.
  pub IsConverged-of_replace :
      (e : Option TrackEntry) (o : Option FakeDocument)
      → any (other_weight desired) (previous e) ≡ false
      → Tracks P profile_of u e o
      → IsConverged P profile_of desired (
          some
            (cognified P (profile_of processing) (added P (Option.map purged o) (payload_for u s))))
  unfolding previous
  IsConverged-of_replace e none w t = IsConverged-of_fresh
  IsConverged-of_replace none (some d) w t = absurd (cc t)
  IsConverged-of_replace (some e) (some d) w h =
      let (r, c, weighed) = h.weighed d refl in
      IsConverged-of_purged d (weighed ∙ ap ok (no_other_weight r _ w c))

  all-agrees :
      (prev : List DocumentRecord)
      → any (other_weight desired) prev ≡ false
      → all (same_derivatives desired) prev ≡ true
      → all (agrees desired) prev ≡ true
  unfolding agrees
  all-agrees [] w h = refl
  all-agrees (x ∷ prev) w h = ground (arith, all-agrees prev)

  -- If the entry of a desired state holds of the stored document, is certain, and all its records
  -- have the desired weight and derivatives, then adding alone leaves the converged document, which
  -- is complete.
  pub IsConverged-of_update :
      (e : Option TrackEntry) (o : Option FakeDocument)
      → any (other_weight desired) (previous e) ≡ false
      → all (same_derivatives desired) (previous e) ≡ true
      → missing e ≡ false
      → Tracks P profile_of u e o
      → (d : FakeDocument) × (added P o (payload_for u s) ≡ d)
        × (d.cognify_complete ≡ true)
        × IsConverged P profile_of desired (some d)
  unfolding previous missing added document_record_for
  IsConverged-of_update none o w a m t = absurd (cc m)
  IsConverged-of_update (some e) o w a m h =
      let (d, p, b, l) = h.settled desired (unfold missing in m) (all-agrees _ w a) in
      let again = rewritten-IsBuilt P profile_of u e s good desired (refl, refl, refl, refl) d b in
      (
        rewritten P d (payload_for u s),
        rw p,
        again.complete,
        record {
          document = rewritten P d (payload_for u s);
          present = refl;
          built = again;
          labelled = unfold rewritten payload_for in good.label;
        },
      )

  equal-agrees :
      (prev : List DocumentRecord)
      → all (λ r. r == desired) prev ≡ true
      → all (agrees desired) prev ≡ true
  unfolding agrees
  equal-agrees [] h = refl
  equal-agrees (x ∷ prev) h = ground (arith, equal-agrees prev)

  -- A record that is settled as desired is converged.
  pub IsConverged-of_settled :
      (e : TrackEntry) (o : Option FakeDocument)
      → missing (some e) ≡ false
      → all (λ r. r == desired) (records e.possible_states) ≡ true
      → Holds P profile_of u e o
      → IsConverged P profile_of desired o
  IsConverged-of_settled e o m a h =
      let (d, p, b, (l, c, lab)) =
        h.settled desired m (equal-agrees (records e.possible_states) a) in
      record {
        document = d;
        present = p;
        built = b;
        labelled =
            subst (λ r. Labelled P r d.payload)
              (==_sound l desired (all-contains (λ r. r == desired) l _ a c)) lab;
      }
