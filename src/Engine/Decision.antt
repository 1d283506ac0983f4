-- ===== src/Engine/Decision.antt =====
-- What reconcile decides for one key, and what it means for the entry and the batch.
use mathlib.Core.Path.{subst}
use mathlib.Core.Option.{some-injective}
use cogindex.Base.{
  List, [], ◌∷◌, Bool, true, false, ◌&&◌, ◌||◌, not, Option, none, some, Text, list_eq, nat_eq,
  ◌==◌, ==_refl, ◌≡◌, ◌⊎◌, refl, arith, all, is_empty, is_some, Bool-cases, inl, inr,
}
use cogindex.Base.Sets
use cogindex.Identity.{Primitives, Uuid}
use cogindex.Records.{DocumentRecord, record_eq}
use cogindex.Runtime.{DocumentPayload}
use cogindex.Spec.Profile.{CognifyProfile}
use cogindex.Spec.Document.{CogneeDocumentSpec, document_record_for}
use cogindex.Target.Statediff.{Diff, DiffAction}
use cogindex.Target.Reconcile.{
  DocumentOp, upsert, replace, recreate, update_metadata, delete, DocumentHandler, Output,
  classify_write, decide, other_ids, ordered, payload_for, delete_output, write_output, write_of,
}
use cogindex.Target.Apply.Marks.{is_delete, is_recreate, is_replace}
use cogindex.Testing.Documents.{FakeDocument}
use cogindex.Engine.Entry.{TrackEntry, previous, missing, extend}
use cogindex.Engine.Entry.Holds.{Tracks}
use cogindex.Engine.Entry.Holds.Start.{IsUnsettled-of_classified, Holds-extend}
use cogindex.Engine.Outputs.{precommitted, only_if}
use cogindex.Engine.Actions.{IsOutput}
use cogindex.Engine.Stages.{Clearable}

other_ids-own :
    (u : Uuid) (prev : List DocumentRecord)
    → all (λ r. r.data_id == u) prev ≡ true
    → other_ids u prev ≡ []
unfolding other_ids
other_ids-own u [] h = refl
other_ids-own u (r ∷ prev) h = ground (arith, other_ids-own u prev)

stale_lem :
    (u : Uuid) (prev : List DocumentRecord)
    → all (λ r. r.data_id == u) prev ≡ true
    → ordered (other_ids u prev) ≡ []
unfolding ordered Sets.sorted
stale_lem u prev h = rw (other_ids-own u prev h)

module _ (diff : Diff) (processing : Text) (key : Text) (u : Uuid) (e : Option TrackEntry) where
  abbrev pub wanted : CogneeDocumentSpec → DocumentRecord
  wanted s = document_record_for s u processing

  abbrev pub planned : CogneeDocumentSpec → DiffAction → DocumentOp
  planned s a = classify_write a (wanted s) (previous e) (missing e)

  -- The four ways a key is decided.
  pub data Decided : Option CogneeDocumentSpec → Option Output → Type 0 where
    absent : is_empty (previous e) ≡ true → missing e ≡ false → Decided none none
    removed : Decided none (some (delete_output key u []))
    same :
        (s : CogneeDocumentSpec)
        → diff (wanted s) (previous e) (missing e) ≡ none
        → Decided (some s) none
    written_as :
        (s : CogneeDocumentSpec) (a : DiffAction)
        → diff (wanted s) (previous e) (missing e) ≡ some a
        → Decided (some s) (some (write_output (planned s a) key u [] s (wanted s)))

pub decide-Decided :
    (P : Primitives) (diff : Diff) (handler : DocumentHandler) (key : Text) (u : Uuid)
    (e : Option TrackEntry) (d : Option CogneeDocumentSpec)
    → all (λ r. r.data_id == u) (previous e) ≡ true
    → Decided diff handler.processing_fingerprint key u e d
        (decide P diff handler key u d (previous e) (missing e))
unfolding decide write_of
decide-Decided P diff handler key u e none own =
    elim (Bool-cases (is_empty (previous e) && not (missing e))) [
      | inl c ↦ rw c (absent (ground arith) (ground arith))
      | inr c ↦ rw (c, stale_lem u (previous e) own) removed
    ]
decide-Decided P diff handler key u e (some s) own =
    go (diff (document_record_for s u handler.processing_fingerprint) (previous e) (missing e)) refl
  where
    go :
        (r : Option DiffAction)
        → diff (document_record_for s u handler.processing_fingerprint) (previous e) (missing e) ≡ r
        → Decided diff handler.processing_fingerprint key u e (some s) (
            write_of r key u s
              (document_record_for s u handler.processing_fingerprint)
              (previous e)
              (missing e))
    go none q = same s q
    go (some a) q = rw (stale_lem u (previous e) own) (written_as s a q)

pub classify_write-not_delete :
    (a : DiffAction) (r : DocumentRecord) (prev : List DocumentRecord) (m : Bool)
    → is_delete (classify_write a r prev m) ≡ false
unfolding classify_write
classify_write-not_delete a r prev m = ground arith

module _ (diff : Diff) (processing : Text) (key : Text) (u : Uuid) (e : Option TrackEntry) where
  pub Decided-IsOutput :
      (d : Option CogneeDocumentSpec) (m : Option Output)
      → Decided diff processing key u e d m
      → (out : Output) → m ≡ some out
      → IsOutput u out
  unfolding delete_output write_output payload_for
  Decided-IsOutput d m (absent x y) out h = absurd (cc h)
  Decided-IsOutput d m (same s q) out h = absurd (cc h)
  Decided-IsOutput d m removed out h =
      subst (IsOutput u) (some-injective _ out h)
        (record { plain = refl; own = refl; named = λ p n. absurd (cc n) })
  Decided-IsOutput d m (written_as s a q) out h =
      subst (IsOutput u) (some-injective _ out h) (record {
        plain = refl;
        own = refl;
        named = λ p n. subst (λ (x : DocumentPayload). x.data_id ≡ u) (some-injective _ p n) refl;
      })

  module _ (P : Primitives) (profile_of : Text → CognifyProfile) where
    -- Precommit of the key keeps its entry true.
    pub Decided-Tracks :
        (c : Bool) (d : Option CogneeDocumentSpec) (m : Option Output) (o : Option FakeDocument)
        → Decided diff processing key u e d m
        → (c ≡ true → is_some d || is_some e ≡ true)
        → Tracks P profile_of u e o
        → Tracks P profile_of u (precommitted (only_if c m) e) o
    unfolding delete_output write_output document_record_for
    Decided-Tracks false d m o x listed t = t
    Decided-Tracks true d m o (absent x y) listed t = t
    Decided-Tracks true d m o (same s q) listed t = t
    Decided-Tracks true d m o removed listed t =
        Holds-extend P profile_of u none e o (λ r n. absurd (cc n))
          (λ n. absurd (cc (rw n at (listed refl)))) t
    Decided-Tracks true d m o (written_as s a q) listed t =
        Holds-extend P profile_of u (some (wanted diff processing key u e s)) e o
          (λ r n.
            subst (λ (x : DocumentRecord). (x.data_id == u) ≡ true) (some-injective _ r n)
              (==_refl u))
          (λ n. refl) t

    pub cleared :
        (s : CogneeDocumentSpec) (a : DiffAction)
        → is_delete (planned diff processing key u e s a)
            || is_recreate (planned diff processing key u e s a)
            || is_replace (planned diff processing key u e s a)
          ≡ true
        → (planned diff processing key u e s a ≡ recreate)
          ⊎ (planned diff processing key u e s a ≡ replace)
    cleared s a h = go (planned diff processing key u e s a) refl
      where
        go :
            (op : DocumentOp)
            → planned diff processing key u e s a ≡ op
            → (planned diff processing key u e s a ≡ recreate)
              ⊎ (planned diff processing key u e s a ≡ replace)
        go recreate q = inl q
        go replace q = inr q
        go delete q = absurd (
            cc (
              rw q at (
                classify_write-not_delete a (wanted diff processing key u e s) (previous e)
                  (missing e))))
        go upsert q = absurd (cc (rw q at h))
        go update_metadata q = absurd (cc (rw q at h))

    pub clear_write :
        (s : CogneeDocumentSpec) (a : DiffAction)
        → is_delete (planned diff processing key u e s a)
            || is_recreate (planned diff processing key u e s a)
            || is_replace (planned diff processing key u e s a)
          ≡ true
        → Clearable (some (extend (some (wanted diff processing key u e s)) e))
    clear_write s a h =
        IsUnsettled-of_classified a (wanted diff processing key u e s) e (cleared s a h)
