-- ===== src/Engine/Sync/Quiet.antt =====
-- A second sync of what a sync has stored: the round decides on no output.
use cogindex.Base.{
  List, [], ◌∷◌, Bool, true, false, ◌||◌, Option, none, Text, list_eq, nat_eq, ==_refl, ◌≡◌, refl,
  sym, ◌∙◌, ap, arith, contains, is_some, Result, ok, err,
}
use mathlib.Core.Path.{subst}
use cogindex.Base.Dict
use cogindex.Identity.{Primitives, Uuid}
use cogindex.Identity.Distinct.{NamesApart}
use cogindex.Records.{record_eq}
use cogindex.Spec.Profile.{CognifyProfile}
use cogindex.Spec.Document.{CogneeDocumentSpec, document_record_for}
use cogindex.Target.Statediff.{Diff, IsDiff}
use cogindex.Target.Reconcile.{
  DocumentHandler, Output, decide, delete_output, write_output, write_of,
}
use cogindex.Testing.Faults.{Fake}
use cogindex.Engine.Entry.{TrackEntry, previous, missing, committed}
use cogindex.Engine.Decision.{Decided, absent, removed, same, written_as}
use cogindex.Engine.Outputs.{outputs_of, precommitted, settled, only_if}
use cogindex.Engine.Round.{
  World, Declared, precommit, commit, actions_of, round_keys, reconcile_round, apply_actions,
  finish_cycle, cycle, sync,
}
use cogindex.Engine.Sync.Site.{decided_at, listed_lem, reconcile_round-outputs_of}
use cogindex.Engine.Sync.Step.{chosen-Decided}
use cogindex.Engine.Sync.Sound.{
  IsSound, IsDeclared, outs, precommitted_store, is_listed, chosen, at_committed, sync-IsSound,
}

-- The entry of a key after commit
abbrev entry_after : Bool → Option Output → Option TrackEntry → Option TrackEntry
entry_after c m e = settled (only_if c m) (precommitted (only_if c m) e)

-- A key of the next round has nothing to do, once its output has been committed.
pub decide_again :
    (P : Primitives) (diff : Diff) (law : IsDiff diff) (handler : DocumentHandler) (key : Text)
    (u : Uuid) (e : Option TrackEntry) (c : Bool) (d : Option CogneeDocumentSpec)
    (m : Option Output)
    → Decided diff handler.processing_fingerprint key u e d m
    → c ≡ is_some d || is_some e
    → is_some d || is_some (entry_after c m e) ≡ true
    → decide P diff handler key u d (previous (entry_after c m e)) (missing (entry_after c m e))
      ≡ none
unfolding decide delete_output write_output write_of previous missing committed
decide_again P diff law handler key u e true d m (absent x y) l h = rw (x, y) refl
decide_again P diff law handler key u e true d m removed l h = absurd (cc h)
decide_again P diff law handler key u e true d m (same s q) l h = rw q refl
decide_again P diff law handler key u e true d m (written_as s a q) l h =
    rw
      (law.quiet (document_record_for s u handler.processing_fingerprint)
        (document_record_for s u handler.processing_fingerprint) []
        (rw (==_refl (document_record_for s u handler.processing_fingerprint)) refl))
      refl
decide_again P diff law handler key u e false d m (same s q) l h = absurd (cc l)
decide_again P diff law handler key u e false d m (written_as s a q) l h = absurd (cc l)
decide_again P diff law handler key u e false d m (absent x y) l h = rw (x, y) refl
decide_again P diff law handler key u e false d m removed l h = absurd (cc (l, h))

outputs_of-none :
    (f : Text → Option Output) (ks : List Text)
    → ((k : Text) → contains k ks ≡ true → f k ≡ none)
    → outputs_of f ks ≡ []
outputs_of-none f [] h = refl
outputs_of-none f (k ∷ ks) h =
    rw (h k (ground arith), outputs_of-none f ks (λ j m. h j (ground arith))) refl

module _ (P : Primitives) (diff : Diff) (handler : DocumentHandler) where
  abbrev ends_as :
      List (Text × Output) → World → Result (Unit {0}) → Fake → Result (Unit {0}) × World
  ends_as outputs w r s = elim r [
    | err x ↦ (err x, record { tracking = precommit outputs w.tracking; fake = s })
    | ok _ ↦ (ok tt, record { tracking = commit outputs (precommit outputs w.tracking); fake = s })
  ]

  abbrev ran : World → Result (List (Text × Output)) → Result (Unit {0}) × World
  ran w r = elim r [ err x ↦ (err x, w) | ok outputs ↦ finish_cycle P diff handler true outputs w ]

  -- A cycle that returns has committed its outputs.
  finish_cycle_committed :
      (outputs : List (Text × Output)) (w : World)
      → (finish_cycle P diff handler true outputs w).0 ≡ ok tt
      → (finish_cycle P diff handler true outputs w).1.tracking
        ≡ commit outputs (precommit outputs w.tracking)
  unfolding finish_cycle
  finish_cycle_committed outputs w =
      go (apply_actions P diff handler (actions_of outputs) w.fake).0
        (apply_actions P diff handler (actions_of outputs) w.fake).1
    where
      go :
          (r : Result (Unit {0})) (s : Fake)
          → (ends_as outputs w r s).0 ≡ ok tt
          → (ends_as outputs w r s).1.tracking ≡ commit outputs (precommit outputs w.tracking)
      go (err x) s h = absurd (cc h)
      go (ok x) s h = refl

  -- A round without outputs is a sync that does nothing.
  sync_quiet :
      (declared : Declared) (w : World)
      → reconcile_round P diff handler declared w.tracking ≡ ok []
      → sync P diff handler declared w ≡ (ok tt, w)
  unfolding sync cycle finish_cycle precommit commit apply_actions
  sync_quiet declared w h = subst (λ r. ran w r ≡ (ok tt, w)) (sym h) refl

module _ (P : Primitives) (profile_of : Text → CognifyProfile) (handler : DocumentHandler)
    (diff : Diff) (law : IsDiff diff) (apart : NamesApart P)
    (mine : handler.profile ≡ profile_of handler.processing_fingerprint) (declared : Declared)
    (ready : IsDeclared P profile_of handler declared) (w : World)
    (sound : IsSound P profile_of handler w) where
  abbrev next : World
  next = (sync P diff handler declared w).1

  next_tracking :
      (sync P diff handler declared w).0 ≡ ok tt
      → next.tracking
        ≡ commit
            (outs P profile_of handler diff law apart mine declared ready w sound)
            (precommitted_store P profile_of handler diff law apart mine declared ready w sound)
  unfolding sync cycle
  next_tracking =
      subst
        (λ r.
          (ran P diff handler w r).0 ≡ ok tt
          → (ran P diff handler w r).1.tracking
            ≡ commit (outs P profile_of handler diff law apart mine declared ready w sound) (
                precommitted_store P profile_of handler diff law apart mine declared ready w sound))
        (sym (
          reconcile_round-outputs_of P handler diff declared w.tracking (λ k s h. (ready k s h).0)
            sound.known))
        (finish_cycle_committed P diff handler
          (outs P profile_of handler diff law apart mine declared ready w sound) w)

  nothing_left :
      (sync P diff handler declared w).0 ≡ ok tt
      → (k : Text) → contains k (round_keys declared next.tracking) ≡ true
      → decided_at P handler diff declared next.tracking k ≡ none
  nothing_left h k m =
      let at_next : Dict.get k next.tracking
          ≡ entry_after
              (is_listed P profile_of handler diff law apart mine declared ready w sound k)
              (chosen P profile_of handler diff law apart mine declared ready w sound k)
              (Dict.get k w.tracking) =
        ap (Dict.get k) (next_tracking h)
        ∙ at_committed P profile_of handler diff law apart mine declared ready w sound k in
      rw at_next (
        decide_again P diff law handler k _ (Dict.get k w.tracking) _ (Dict.get k declared) _
          (chosen-Decided P profile_of diff handler apart declared w.tracking
            (λ j s q. (ready j s q).1) _ sound.fits k)
          (listed_lem P handler diff declared w.tracking k)
          (rw at_next at (sym (listed_lem P handler diff declared next.tracking k) ∙ m)))

  -- If the world is sound, the diff behaves as documented, UUID5 tells different names apart, the
  -- handler's profile is that of its processing fingerprint, every declared key is normalized and
  -- has an identity, and the declared states have the fingerprints of their fields, then after a
  -- sync that returns a second sync of the same declaration returns and leaves the tracking store
  -- and the deployment as they are, its log of calls included.
  pub sync_again :
      (sync P diff handler declared w).0 ≡ ok tt
      → sync P diff handler declared (sync P diff handler declared w).1
        ≡ (ok tt, (sync P diff handler declared w).1)
  sync_again h = sync_quiet P diff handler declared next (
      reconcile_round-outputs_of P handler diff declared next.tracking (λ k s q. (ready k s q).0)
        (sync-IsSound P profile_of handler diff law apart mine declared ready w sound).known
      ∙ ap ok (outputs_of-none _ _ (nothing_left h)))
