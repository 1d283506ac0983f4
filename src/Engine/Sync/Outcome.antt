-- ===== src/Engine/Sync/Outcome.antt =====
-- What a successful cycle leaves of one key: its document, and its entry after commit.
use mathlib.Core.Option
use cogindex.Base.{
  [], Bool, true, false, ◌||◌, Option, none, some, Text, list_eq, nat_eq, ◌==◌, ==_refl, ◌≡◌, refl,
  is_some, is_empty, if◌then◌else◌,
}
use cogindex.Identity.{Primitives, Uuid}
use cogindex.Records.{record_eq}
use cogindex.Spec.Profile.{CognifyProfile}
use cogindex.Spec.Document.{CogneeDocumentSpec, document_record_for}
use cogindex.Target.Statediff.{Diff, IsDiff}
use cogindex.Target.Reconcile.{Output, delete_output, write_output}
use cogindex.Target.Apply.{Batch}
use cogindex.Target.Apply.Marks.{Settled}
use cogindex.Testing.Documents.{FakeDocument, cognified}
use cogindex.Engine.Entry.{TrackEntry, previous, missing}
use cogindex.Engine.Entry.Holds.{Tracks, IsSpec, IsConverged}
use cogindex.Engine.Entry.Holds.Committed.{Holds-committed}
use cogindex.Engine.Entry.Holds.Final.{IsConverged-of_settled}
use cogindex.Engine.Outputs.{precommitted, settled, only_if, action_of}
use cogindex.Engine.Decision.{Decided, absent, removed, same, written_as}
use cogindex.Engine.Converged.{final, final-IsConverged, IsConverged-cognified}

-- A declared key has its converged document, another key has none.
abbrev pub Outcome :
    Primitives
    → (Text → CognifyProfile)
    → Text
    → Uuid
    → Option CogneeDocumentSpec
    → Option FakeDocument
    → Type 0
Outcome P profile_of processing u none o = o ≡ none
Outcome P profile_of processing u (some s) o =
    IsConverged P profile_of (document_record_for s u processing) o

stays_none :
    (flag : Bool) (f : FakeDocument → FakeDocument)
    → (if flag then Option.map f none else none) ≡ none
stays_none true f = refl
stays_none false f = refl

module _ (P : Primitives) (profile_of : Text → CognifyProfile) (processing : Text)
    (profile : CognifyProfile) (mine : profile ≡ profile_of processing) (diff : Diff)
    (law : IsDiff diff) (key : Text) (u : Uuid) (e : Option TrackEntry) (o : Option FakeDocument)
    (t : Tracks P profile_of u e o) (b : Batch) where
  never_absent : is_empty (previous e) ≡ true → missing e ≡ false → ⊥
  unfolding previous missing
  never_absent = go e t
    where
      go :
          (e : Option TrackEntry)
          → Tracks P profile_of u e o
          → is_empty (previous e) ≡ true
          → missing e ≡ false
          → ⊥
      go none t h m = cc m
      go (some x) t h m = cc (t.nonempty, h)

  -- An undeclared key without an entry
  untouched_none : e ≡ none → Settled u b none → final P profile b u o ≡ none
  untouched_none gone m =
      rw (m.deleted, m.purged, m.payload, nothing e t gone)
        (stays_none b.needs_cognify (cognified P profile))
    where
      nothing : (e : Option TrackEntry) → Tracks P profile_of u e o → e ≡ none → o ≡ none
      nothing none t g = t
      nothing (some x) t g = absurd (cc g)

  -- A deleted key
  removed_none : Settled u b (some (delete_output key u []).action) → final P profile b u o ≡ none
  unfolding delete_output
  removed_none m =
      rw (m.deleted, m.purged, m.payload) (stays_none b.needs_cognify (cognified P profile))

  -- A key whose record is certain and desired
  same-IsConverged :
      (s : CogneeDocumentSpec)
      → IsSpec P s
      → diff (document_record_for s u processing) (previous e) (missing e) ≡ none
      → Settled u b none
      → IsConverged P profile_of (document_record_for s u processing) (final P profile b u o)
  unfolding previous missing
  same-IsConverged s good q m =
      rw (m.deleted, m.purged, m.payload)
        (IsConverged-cognified P profile_of (document_record_for s u processing) profile
          b.needs_cognify o (go e t q))
    where
      go :
          (e : Option TrackEntry)
          → Tracks P profile_of u e o
          → diff (document_record_for s u processing) (previous e) (missing e) ≡ none
          → IsConverged P profile_of (document_record_for s u processing) o
      go none t q = absurd (cc ((law.settled _ _ _ q).0))
      go (some x) t q =
          let (sure, equal) = law.settled _ _ _ q in
          IsConverged-of_settled P profile_of u s good processing x o sure equal t

  own_record : (s : CogneeDocumentSpec) → ((document_record_for s u processing).data_id == u) ≡ true
  unfolding document_record_for
  own_record s = ==_refl u

  -- The document after the batch is the one that is asked for, and the entry after commit holds
  -- of it.
  pub Decided-Outcome :
      (c : Bool) (d : Option CogneeDocumentSpec) (m : Option Output)
      → Decided diff processing key u e d m
      → (c ≡ is_some d || is_some e)
      → ((s : CogneeDocumentSpec) → d ≡ some s → IsSpec P s)
      → Settled u b (action_of (only_if c m))
      → Tracks P profile_of u (precommitted (only_if c m) e) (final P profile b u o)
      → Outcome P profile_of processing u d (final P profile b u o)
        × Tracks P profile_of u
            (settled (only_if c m) (precommitted (only_if c m) e))
            (final P profile b u o)
  unfolding delete_output write_output
  Decided-Outcome true d m (absent x y) l good z k = absurd (never_absent x y)
  Decided-Outcome true d m removed l good z k = (removed_none z, removed_none z)
  Decided-Outcome true d m (same s q) l good z k = (same-IsConverged s (good s refl) q z, k)
  Decided-Outcome true d m (written_as s a q) l good z k =
      let done =
        final-IsConverged P profile_of u key processing s (good s refl) profile mine b e o t diff
          law a q _ refl z in
      (
        done,
        Holds-committed P profile_of u (document_record_for s u processing) (final P profile b u o)
            (own_record s) done,
      )
  Decided-Outcome false d m (same s q) l good z k = absurd (cc l)
  Decided-Outcome false d m (written_as s a q) l good z k = absurd (cc l)
  Decided-Outcome false d m (absent x y) l good z k = absurd (never_absent x y)
  Decided-Outcome false d m removed l good z k = (untouched_none (no_entry e l) z, k)
    where
      no_entry : (e : Option TrackEntry) → false ≡ is_some e → e ≡ none
      no_entry none l = refl
      no_entry (some x) l = absurd (cc l)
