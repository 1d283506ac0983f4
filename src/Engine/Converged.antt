-- ===== src/Engine/Converged.antt =====
-- The batch makes the document of a declared key the converged one.
use mathlib.Core.Option
use cogindex.Base.{
  List, [], ◌∷◌, Bool, true, false, Option, none, some, Text, list_eq, nat_eq, ◌≡◌, refl, ◌∙◌, ap,
  arith, all, any, contains, is_empty, if◌then◌else◌, Bool-cases, inl, inr,
}
use cogindex.Base.Dict
use cogindex.Identity.{Primitives, Uuid}
use cogindex.Records.{DocumentRecord, record_eq}
use cogindex.Spec.Profile.{CognifyProfile}
use cogindex.Spec.Document.{CogneeDocumentSpec, document_record_for}
use cogindex.Target.Statediff.{Diff, DiffAction, IsDiff}
use cogindex.Target.Reconcile.{
  DocumentOp, upsert, replace, recreate, update_metadata, delete, classify_write, payload_for,
  write_output, creates, other_weight, same_derivatives,
}
use cogindex.Target.Apply.{Batch}
use cogindex.Target.Apply.Marks.{Settled}
use cogindex.Testing.Documents.{FakeDocument, purged, added, cognified}
use cogindex.Testing.Effects.Pointwise.{added_from}
use cogindex.Engine.Entry.{TrackEntry, previous, missing}
use cogindex.Engine.Entry.Holds.{Tracks, IsSpec, IsConverged}
use cogindex.Engine.Entry.Holds.Final.{
  IsConverged-of_fresh, IsConverged-of_replace, IsConverged-of_update,
}
use cogindex.Engine.Decision.{classify_write-not_delete}

module _ (a : DiffAction) (r : DocumentRecord) where
  replace-weight :
      (prev : List DocumentRecord) (m : Bool)
      → classify_write a r prev m ≡ replace
      → any (other_weight r) prev ≡ false
  unfolding classify_write
  replace-weight [] m h = refl
  replace-weight (x ∷ prev) m h = ground arith

  update-facts :
      (prev : List DocumentRecord) (m : Bool)
      → classify_write a r prev m ≡ update_metadata
      → (any (other_weight r) prev ≡ false) × (all (same_derivatives r) prev ≡ true) × (m ≡ false)
  unfolding classify_write
  update-facts [] m h = ground arith
  update-facts (x ∷ prev) m h = ground arith

  -- Only a key without possible records is created.
  upsert-fresh :
      (diff : Diff)
      → IsDiff diff
      → (prev : List DocumentRecord) (m : Bool) → diff r prev m ≡ some a
      → classify_write a r prev m ≡ upsert
      → is_empty prev ≡ true
  unfolding classify_write creates
  upsert-fresh diff law [] m q h = refl
  upsert-fresh diff law (x ∷ prev) m q h = elim (Bool-cases (creates a)) [
    | inr c ↦ absurd (later c)
    | inl c ↦ elim (Bool-cases m) [
      | inl y ↦ absurd (unsure c y)
      | inr y ↦ absurd (sure a (rw y at q) c)
    ]
  ]
    where
      sure : (a : DiffAction) → diff r (x ∷ prev) false ≡ some a → creates a ≡ true → ⊥
      sure DiffAction.insert q c = law.no_insert r x prev q
      sure DiffAction.upsert q c = law.no_upsert r x prev q
      sure DiffAction.replace q c = cc c
      sure DiffAction.delete q c = cc c

      later : creates a ≡ false → ⊥
      later c = ground (arith, h)

      unsure : creates a ≡ true → m ≡ true → ⊥
      unsure c y = ground (arith, h)

-- The document of the identity after a batch
abbrev pub final :
    Primitives → CognifyProfile → Batch → Uuid → Option FakeDocument → Option FakeDocument
final P profile b u o =
    let o1 = if contains u b.delete_ids then none else o in
    let o2 = if contains u b.purge_ids then Option.map purged o1 else o1 in
    let o3 = added_from P (Dict.get u b.payloads) o2 in
    if b.needs_cognify then Option.map (cognified P profile) o3 else o3

module _ (P : Primitives) (profile_of : Text → CognifyProfile) where
  cognified_kept :
      (profile : CognifyProfile) (d : FakeDocument)
      → d.cognify_complete ≡ true
      → cognified P profile d ≡ d
  unfolding cognified
  cognified_kept profile d h = rw h

  -- A converged document is complete, so cognifying skips it.
  pub IsConverged-cognified :
      (r : DocumentRecord) (profile : CognifyProfile) (flag : Bool) (o : Option FakeDocument)
      → IsConverged P profile_of r o
      → IsConverged P profile_of r (if flag then Option.map (cognified P profile) o else o)
  IsConverged-cognified r profile false o c = c
  IsConverged-cognified r profile true o c = record {
    document = c.document;
    present =
        ap (Option.map (cognified P profile)) c.present
        ∙ ap some (cognified_kept profile c.document c.built.complete);
    built = c.built;
    labelled = c.labelled;
  }

  module _ (u : Uuid) (key processing : Text) (s : CogneeDocumentSpec) (good : IsSpec P s)
      (profile : CognifyProfile) (mine : profile ≡ profile_of processing) (b : Batch)
      (e : Option TrackEntry) (o : Option FakeDocument) (t : Tracks P profile_of u e o) where
    abbrev target : DocumentRecord
    target = document_record_for s u processing

    nothing_stored : is_empty (previous e) ≡ true → o ≡ none
    unfolding previous
    nothing_stored h = go e t h
      where
        go :
            (e : Option TrackEntry)
            → Tracks P profile_of u e o
            → is_empty (previous e) ≡ true
            → o ≡ none
        go none t h = t
        go (some x) t h = absurd (cc (t.nonempty, h))

    -- A write of the key
    pub final-IsConverged :
        (diff : Diff)
        → IsDiff diff
        → (a : DiffAction) → diff target (previous e) (missing e) ≡ some a
        → (op : DocumentOp) → classify_write a target (previous e) (missing e) ≡ op
        → Settled u b (some (write_output op key u [] s target).action)
        → IsConverged P profile_of target (final P profile b u o)
    unfolding write_output
    final-IsConverged diff law a q recreate h m =
        rw (m.deleted, m.purged, m.payload, m.cognify refl, mine)
          (IsConverged-of_fresh P profile_of u s good processing)
    final-IsConverged diff law a q upsert h m =
        rw
          (
            m.deleted,
            m.purged,
            m.payload,
            m.cognify refl,
            mine,
            nothing_stored (upsert-fresh a target diff law (previous e) (missing e) q h),
          )
          (IsConverged-of_fresh P profile_of u s good processing)
    final-IsConverged diff law a q replace h m =
        rw (m.deleted, m.purged, m.payload, m.cognify refl, mine)
          (IsConverged-of_replace P profile_of u s good processing e o
            (replace-weight a target (previous e) (missing e) h) t)
    final-IsConverged diff law a q update_metadata h m =
        let (w, same, sure) = update-facts a target (previous e) (missing e) h in
        let (d, f, done, c) =
          IsConverged-of_update P profile_of u s good processing e o w same sure t in
        rw (m.deleted, m.purged, m.payload)
          (IsConverged-cognified target profile b.needs_cognify (some (added P o (payload_for u s)))
            (rw f c))
    final-IsConverged diff law a q delete h m =
        absurd (cc (rw h at (classify_write-not_delete a target (previous e) (missing e))))
