-- ===== src/Engine/Sync/Sound.antt =====
-- The invariant of the tracking store and the deployment, and convergence.
use cogindex.Base.{
  List, Bool, true, false, ◌||◌, Option, none, some, Text, list_eq, nat_eq, ◌≡◌, refl, sym, ◌∙◌, ap,
  arith, is_some, Result, ok, err, Option-cases, Bool-cases, inl, inr, if◌then◌else◌,
}
use mathlib.Core.Path.{subst}
use cogindex.Base.Dict
use cogindex.Identity.{Primitives}
use cogindex.Identity.Distinct.{NamesApart}
use cogindex.Spec.Profile.{CognifyProfile}
use cogindex.Spec.Document.{CogneeDocumentSpec}
use cogindex.Target.Statediff.{Diff, IsDiff}
use cogindex.Target.Reconcile.{DocumentHandler, Output}
use cogindex.Testing.Faults.{Fake}
use cogindex.Testing.Effects.Outcome.{Ends}
use cogindex.Testing.Effects.Pointwise.{View, doc_at, Is}
use cogindex.Engine.Entry.{TrackEntry}
use cogindex.Engine.Entry.Holds.{Tracks, IsSpec}
use cogindex.Target.Apply.{Batch, empty_batch, collect, settle}
use cogindex.Engine.Batch.{after_batch}
use cogindex.Engine.Outputs.{precommitted, outputs_of, only_if, get-commit, settled}
use cogindex.Engine.Actions.{planned-Settled}
use cogindex.Engine.Stages.{Fits}
use cogindex.Engine.Round.{
  World, Declared, Tracking, precommit, commit, actions_of, round_keys, apply_actions, finish_cycle,
  cycle, sync, sync_exit_after_apply, crash_before_apply,
}
use cogindex.Engine.Sync.Applied.{Applied, Left}
use cogindex.Engine.Sync.Outcome.{Outcome, Decided-Outcome}
use cogindex.Engine.Sync.Site.{
  IsKey, id_at, id_at-injective, decided_at, listed, listed_lem, reconcile_round-outputs_of,
}
use cogindex.Engine.Sync.Step.{
  promised, promised_lem, Fits-promised, Fits-after, apply_actions-Fits, chosen-Decided,
  chosen-IsOutput,
}

module _ (P : Primitives) (profile_of : Text → CognifyProfile) (handler : DocumentHandler) where
  -- Every tracked key is one of the handler's, its entry holds of the stored document, and every
  -- stored document is that of a key.
  pub record IsSound (w : World) : Type 0 where
    pub known : (k : Text) (e : TrackEntry) → Dict.get k w.tracking ≡ some e → IsKey P handler k
    pub fits : Fits P profile_of (id_at P handler) w.tracking (doc_at handler.handle w.fake)

  -- The declared keys are normalized and have identities, and the declared states were constructed.
  abbrev pub IsDeclared : Declared → Type 0
  IsDeclared declared =
      (k : Text) (s : CogneeDocumentSpec)
      → Dict.get k declared ≡ some s
      → IsKey P handler k × IsSpec P s

  -- A declared key has its converged document, another key has none.
  abbrev pub IsConvergedTo : Declared → World → Type 0
  IsConvergedTo declared w =
      (k : Text)
      → Outcome P profile_of handler.processing_fingerprint (id_at P handler k)
          (Dict.get k declared) (doc_at handler.handle w.fake (id_at P handler k))

  Fits-at :
      (tracking : Tracking) (g : View) (s : Fake)
      → Is handler.handle g s
      → Fits P profile_of (id_at P handler) tracking g
      → Fits P profile_of (id_at P handler) tracking (doc_at handler.handle s)
  Fits-at tracking g s i h = record {
    tracks = λ k. rw (i (id_at P handler k)) (h.tracks k);
    owned = λ u d e. h.owned u d (sym (i u) ∙ e);
  }

  module _ (diff : Diff) (law : IsDiff diff) (apart : NamesApart P)
      (mine : handler.profile ≡ profile_of handler.processing_fingerprint) (declared : Declared)
      (ready : IsDeclared declared) (w : World) (sound : IsSound w) where
    pub good : (k : Text) (s : CogneeDocumentSpec) → Dict.get k declared ≡ some s → IsSpec P s
    good k s h = (ready k s h).1

    abbrev pub before : View
    before = doc_at handler.handle w.fake

    abbrev pub outs : List (Text × Output)
    outs =
        outputs_of (decided_at P handler diff declared w.tracking) (round_keys declared w.tracking)

    abbrev pub precommitted_store : Tracking
    precommitted_store =
        promised P profile_of diff handler apart declared w.tracking good before sound.fits

    is_key :
        (k : Text)
        → is_some (Dict.get k declared) || is_some (Dict.get k w.tracking) ≡ true
        → IsKey P handler k
    is_key k h = elim (Option-cases (Dict.get k declared)) [
      | inr (s, q) ↦ (ready k s q).0
      | inl q ↦ elim (Option-cases (Dict.get k w.tracking)) [
        | inr (e, r) ↦ sound.known k e r
        | inl r ↦ absurd (cc (h, q, r))
      ]
    ]

    abbrev pub chosen : Text → Option Output
    chosen = decided_at P handler diff declared w.tracking

    abbrev pub is_listed : Text → Bool
    is_listed = listed P handler diff declared w.tracking

    known_if :
        (k : Text) (change : Option Output → Option TrackEntry → Option TrackEntry)
        → change none none ≡ none
        → (e : TrackEntry)
        → change (only_if (is_listed k) (chosen k)) (Dict.get k w.tracking) ≡ some e
        → IsKey P handler k
    known_if k change z e h =
        elim (Bool-cases (is_some (Dict.get k declared) || is_some (Dict.get k w.tracking))) [
          | inl l ↦ is_key k l
          | inr l ↦
              let off = listed_lem P handler diff declared w.tracking k ∙ l in
              let none_left : is_some (Dict.get k w.tracking) ≡ false = ground arith in
              absurd (cc (z, rw (off, is_some-none (Dict.get k w.tracking) none_left) at h))
        ]
      where
        is_some-none : {A : Type 0} (o : Option A) → is_some o ≡ false → o ≡ none
        is_some-none none q = refl
        is_some-none (some x) q = absurd (cc q)

    abbrev pub entry_at : Text → Option TrackEntry
    entry_at k = precommitted (only_if (is_listed k) (chosen k)) (Dict.get k w.tracking)

    at_promised : (k : Text) → Dict.get k precommitted_store ≡ entry_at k
    at_promised k =
        promised_lem P profile_of diff handler apart declared w.tracking good before sound.fits k

    pub at_committed :
        (k : Text)
        → Dict.get k (commit outs precommitted_store)
          ≡ settled (only_if (is_listed k) (chosen k)) (entry_at k)
    at_committed k =
        get-commit chosen k (round_keys declared w.tracking) precommitted_store
        ∙ ap (settled (only_if (is_listed k) (chosen k))) (at_promised k)

    known_promised :
        (k : Text) (e : TrackEntry) → Dict.get k precommitted_store ≡ some e → IsKey P handler k
    known_promised k e h = known_if k precommitted refl e (sym (at_promised k) ∙ h)

    known_committed :
        (k : Text) (e : TrackEntry)
        → Dict.get k (commit outs precommitted_store) ≡ some e
        → IsKey P handler k
    known_committed k e h =
        known_if k (λ o x. settled o (precommitted o x)) refl e (sym (at_committed k) ∙ h)

    abbrev pub CycleEnds : Result (Unit {0}) × World → Type 0
    CycleEnds r = IsSound r.1 × (r.0 ≡ ok tt → IsConvergedTo declared r.1)

    module _ (b : Batch) (e : collect (actions_of outs) empty_batch ≡ ok b) (s : Fake)
        (i : Is handler.handle
          (after_batch P handler.handle before
            (settle b)
            handler.profile
            (Fits P profile_of (id_at P handler) precommitted_store))
          s) where
      after-Fits : Fits P profile_of (id_at P handler) precommitted_store (doc_at handler.handle s)
      after-Fits = Fits-at precommitted_store _ s i (
          Fits-after P profile_of diff handler apart declared w.tracking good before sound.fits b e)

      key_ends :
          (k : Text)
          → Outcome P profile_of handler.processing_fingerprint
              (id_at P handler k)
              (Dict.get k declared)
              (doc_at handler.handle s (id_at P handler k))
            × Tracks P profile_of
                (id_at P handler k)
                (settled (only_if (is_listed k) (chosen k)) (entry_at k))
                (doc_at handler.handle s (id_at P handler k))
      key_ends k = rw (i (id_at P handler k)) (
          Decided-Outcome P profile_of handler.processing_fingerprint handler.profile mine diff law
            k (id_at P handler k) (Dict.get k w.tracking) (before (id_at P handler k))
            (sound.fits.tracks k) (settle b) (is_listed k) (Dict.get k declared) (chosen k)
            (chosen-Decided P profile_of diff handler apart declared w.tracking good before
              sound.fits k)
            (listed_lem P handler diff declared w.tracking k) (good k)
            (planned-Settled (id_at P handler) (id_at-injective P handler apart) chosen
              (chosen-IsOutput P profile_of diff handler apart declared w.tracking good before
                sound.fits)
              (round_keys declared w.tracking) b e k)
            (rw (at_promised k, i (id_at P handler k)) at (after-Fits.tracks k)))

      committed-Fits :
          Fits P profile_of
            (id_at P handler)
            (commit outs precommitted_store)
            (doc_at handler.handle s)
      committed-Fits = record {
        tracks = λ k. rw (at_committed k) (key_ends k).1;
        owned = after-Fits.owned;
      }

      finished :
          (commits : Bool)
          → CycleEnds (
            ok tt,
            record {
              tracking = if commits then commit outs precommitted_store else precommitted_store;
              fake = s;
            },
          )
      finished true =
          (record { known = known_committed; fits = committed-Fits }, λ done k. (key_ends k).0)
      finished false =
          (record { known = known_promised; fits = after-Fits }, λ done k. (key_ends k).0)

    finish_cycle-CycleEnds :
        (commits : Bool) → CycleEnds (finish_cycle P diff handler commits outs w)
    unfolding finish_cycle
    finish_cycle-CycleEnds commits =
        go (apply_actions P diff handler (actions_of outs) w.fake).0
          (apply_actions P diff handler (actions_of outs) w.fake).1
          (apply_actions-Fits P profile_of diff handler apart declared w.tracking good before
            sound.fits w.fake (λ u. refl))
      where
        go :
            (r : Result (Unit {0})) (s : Fake)
            → Ends
                (λ _.
                  Applied P diff handler before
                    (Fits P profile_of (id_at P handler) precommitted_store)
                    (actions_of outs))
                (Left P diff handler before
                  (Fits P profile_of (id_at P handler) precommitted_store))
                r
                s
            → CycleEnds (elim r [
              | err x ↦ (err x, record { tracking = precommitted_store; fake = s })
              | ok _ ↦ (
                ok tt,
                record {
                  tracking = if commits then commit outs precommitted_store else precommitted_store;
                  fake = s;
                },
              )
            ])
        go (err x) s (g', kept, i) = (
          record { known = known_promised; fits = Fits-at precommitted_store g' s i kept },
          λ done. absurd (cc done),
        )
        go (ok x) s (b, e, i) = finished b e s i commits

    -- A cycle keeps the invariant, and makes the documents the declared ones if it returns.
    pub cycle-CycleEnds : (commits : Bool) → CycleEnds (cycle P diff handler commits declared w)
    unfolding cycle
    cycle-CycleEnds commits =
        subst
          (λ r. CycleEnds (elim r [
            | err x ↦ (err x, w)
            | ok outputs ↦ finish_cycle P diff handler commits outputs w
          ]))
          (sym (
            reconcile_round-outputs_of P handler diff declared w.tracking (λ k s h. (ready k s h).0)
              sound.known))
          (finish_cycle-CycleEnds commits)

    -- If the world is sound, the diff behaves as documented, UUID5 tells different names apart, the
    -- handler's profile is that of its processing fingerprint, every declared key is normalized and
    -- has an identity, and the declared states have the fingerprints of their fields, then the
    -- world after a sync is sound, whether the sync returned or raised.
    pub sync-IsSound : IsSound (sync P diff handler declared w).1
    unfolding sync
    sync-IsSound = (cycle-CycleEnds true).0

    -- If the world is sound, the diff behaves as documented, UUID5 tells different names apart, the
    -- handler's profile is that of its processing fingerprint, every declared key is normalized and
    -- has an identity, and the declared states have the fingerprints of their fields, then the
    -- world after a sync whose process exits between the batch and the commit is sound, whether the
    -- batch returned or raised.
    pub sync_exit_after_apply-IsSound : IsSound (sync_exit_after_apply P diff handler declared w).1
    unfolding sync_exit_after_apply
    sync_exit_after_apply-IsSound = (cycle-CycleEnds false).0

    -- If the world is sound, the diff behaves as documented, UUID5 tells different names apart, the
    -- handler's profile is that of its processing fingerprint, every declared key is normalized and
    -- has an identity, and the declared states have the fingerprints of their fields, then a sync
    -- that returns leaves every declared key with the converged document of its desired state, and
    -- every other key without a document.
    pub sync-IsConvergedTo :
        (sync P diff handler declared w).0 ≡ ok tt
        → IsConvergedTo declared (sync P diff handler declared w).1
    unfolding sync
    sync-IsConvergedTo = (cycle-CycleEnds true).1

    abbrev crashed : Result (List (Text × Output)) → Result (Unit {0}) × World
    crashed r = elim r [
      | err x ↦ (err x, w)
      | ok outputs ↦ (ok tt, record w { tracking = precommit outputs w.tracking })
    ]

    -- If the world is sound, the diff behaves as documented, UUID5 tells different names apart, the
    -- handler's profile is that of its processing fingerprint, every declared key is normalized and
    -- has an identity, and the declared states have the fingerprints of their fields, then the
    -- world after a sync that ends between precommit and the batch is sound.
    pub crash_before_apply-IsSound : IsSound (crash_before_apply P diff handler declared w).1
    unfolding crash_before_apply
    crash_before_apply-IsSound =
        subst (λ r. IsSound (crashed r).1)
          (sym (
            reconcile_round-outputs_of P handler diff declared w.tracking (λ k s h. (ready k s h).0)
              sound.known))
          (record {
            known = known_promised;
            fits =
                Fits-promised P profile_of diff handler apart declared w.tracking good before
                  sound.fits;
          })
