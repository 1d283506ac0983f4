-- ===== src/Engine/Sync/Step.antt =====
-- One cycle of the engine over one dataset.
use cogindex.Base.{
  List, true, Option, none, some, Text, list_eq, nat_eq, ◌==◌, ◌≡◌, refl, sym, ◌∙◌, all, ok, inl,
  inr,
}
use cogindex.Base.Dict
use cogindex.Identity.{Primitives, Uuid}
use cogindex.Identity.Distinct.{NamesApart}
use cogindex.Runtime.{DocumentPayload}
use cogindex.Spec.Profile.{CognifyProfile}
use cogindex.Spec.Document.{CogneeDocumentSpec}
use cogindex.Target.Statediff.{Diff}
use cogindex.Target.Reconcile.{DocumentHandler, Output}
use cogindex.Target.Apply.{Batch, empty_batch, collect, settle}
use cogindex.Testing.Faults.{Fake}
use cogindex.Testing.Effects.Outcome.{EndsAs}
use cogindex.Testing.Effects.Pointwise.{View, Is, deleted_at, purged_at, added_at, added_from}
use cogindex.Testing.Effects.Adding.{Partly}
use cogindex.Testing.Effects.Writes.{PartlyAdded}
use cogindex.Engine.Batch.{IsKept, after_batch}
use cogindex.Engine.Entry.{TrackEntry, records, previous}
use cogindex.Engine.Entry.Holds.{Tracks, IsSpec}
use cogindex.Engine.Outputs.{outputs_of, precommitted, only_if, get-precommit}
use cogindex.Engine.Actions.{IsOutput, planned-Settled, planned-AreNamed, planned_key}
use cogindex.Engine.Stages.{
  Fits, Allows, Fits-deleted, Fits-torn, Fits-purged, Fits-partly, Fits-cognified,
}
use cogindex.Engine.Decision.{Decided, decide-Decided, Decided-IsOutput, Decided-Tracks}
use cogindex.Engine.Allowed.{Decided-IsAllowed}
use cogindex.Engine.Round.{Declared, Tracking, precommit, actions_of, round_keys, apply_actions}
use cogindex.Engine.Sync.Applied.{Applied, Left, apply_actions-Applied}
use cogindex.Engine.Sync.Site.{id_at, id_at-injective, decided_at, listed, listed_lem}

module _ (P : Primitives) (profile_of : Text → CognifyProfile) (diff : Diff)
    (handler : DocumentHandler) (apart : NamesApart P) (declared : Declared) (tracking : Tracking)
    (good : (k : Text) (s : CogneeDocumentSpec) → Dict.get k declared ≡ some s → IsSpec P s)
    (g : View) (fits : Fits P profile_of (id_at P handler) tracking g) where
  abbrev id : Text → Uuid
  id = id_at P handler

  abbrev chosen : Text → Option Output
  chosen = decided_at P handler diff declared tracking

  abbrev keys : List Text
  keys = round_keys declared tracking

  abbrev pub promised : Tracking
  promised = precommit (outputs_of chosen keys) tracking

  own_ids : (k : Text) → all (λ r. r.data_id == id k) (previous (Dict.get k tracking)) ≡ true
  unfolding previous records
  own_ids k = go (Dict.get k tracking) (fits.tracks k)
    where
      go :
          (e : Option TrackEntry)
          → Tracks P profile_of (id k) e (g (id k))
          → all (λ r. r.data_id == id k) (previous e) ≡ true
      go none t = refl
      go (some e) t = t.ids

  pub chosen-Decided :
      (k : Text)
      → Decided diff handler.processing_fingerprint k
          (id k)
          (Dict.get k tracking)
          (Dict.get k declared)
          (chosen k)
  chosen-Decided k =
      decide-Decided P diff handler k (id k) (Dict.get k tracking) (Dict.get k declared) (own_ids k)

  pub chosen-IsOutput : (k : Text) (out : Output) → chosen k ≡ some out → IsOutput (id k) out
  chosen-IsOutput k =
      Decided-IsOutput diff handler.processing_fingerprint k (id k) (Dict.get k tracking)
        (Dict.get k declared) (chosen k) (chosen-Decided k)

  pub promised_lem :
      (k : Text)
      → Dict.get k promised
        ≡ precommitted
            (only_if (listed P handler diff declared tracking k) (chosen k))
            (Dict.get k tracking)
  promised_lem k = get-precommit chosen k keys tracking

  -- The store after precommit holds of the documents before the batch.
  pub Fits-promised : Fits P profile_of id promised g
  Fits-promised = record {
    tracks = λ k. rw (promised_lem k) (
        Decided-Tracks diff handler.processing_fingerprint k (id k) (Dict.get k tracking) P
          profile_of (listed P handler diff declared tracking k) (Dict.get k declared) (chosen k)
          (g (id k)) (chosen-Decided k)
          (λ m. sym (listed_lem P handler diff declared tracking k) ∙ m) (fits.tracks k));
    owned = fits.owned;
  }

  module _ (b : Batch) (e : collect (actions_of (outputs_of chosen keys)) empty_batch ≡ ok b) where
    allows : (k : Text) → Allows P profile_of id promised (settle b) k
    allows k =
        let (d, p, a) = rw (← promised_lem k) at (
          Decided-IsAllowed diff handler.processing_fingerprint k (id k) (Dict.get k tracking) P
            profile_of (settle b) (listed P handler diff declared tracking k) (Dict.get k declared)
            (chosen k) (chosen-Decided k) (good k)
            (planned-Settled id (id_at-injective P handler apart) chosen chosen-IsOutput keys b e
              k)) in
        record { deleting = d; purging = p; adding = a }

    keys_of_payloads :
        (u : Uuid) (p : DocumentPayload)
        → Dict.get u (settle b).payloads ≡ some p
        → (k : Text) × (u ≡ id k)
    keys_of_payloads u p h =
        let (k, same, named) =
          planned_key id (id_at-injective P handler apart) chosen chosen-IsOutput keys b e u p h in
        (k, same)

    batch-IsKept :
        IsKept P handler.handle g (settle b) handler.profile (Fits P profile_of id promised)
    batch-IsKept = record {
      named = planned-AreNamed id (id_at-injective P handler apart) chosen chosen-IsOutput keys b e;
      before = Fits-promised;
      torn = Fits-torn P profile_of id promised (settle b) allows g Fits-promised;
      deleted = gone;
      purged = bare;
      partly = Fits-partly P profile_of id promised (settle b) allows _ keys_of_payloads bare;
    }
      where
        gone : Fits P profile_of id promised (deleted_at (settle b).delete_ids g)
        gone = Fits-deleted P profile_of id promised (settle b) allows g Fits-promised

        bare :
            Fits P profile_of id promised
              (purged_at (settle b).purge_ids (deleted_at (settle b).delete_ids g))
        bare = Fits-purged P profile_of id promised (settle b) allows _ gone

    -- The store after precommit holds of the documents after the batch, too.
    pub Fits-after :
        Fits P profile_of id promised (
          after_batch P handler.handle g (settle b) handler.profile (Fits P profile_of id promised))
    Fits-after =
        Fits-cognified P profile_of id promised (settle b) allows _ handler.profile
          (settle b).needs_cognify
          (Fits-partly P profile_of id promised (settle b) allows _ keys_of_payloads
            batch-IsKept.purged _ all_partly)
      where
        all_partly :
            PartlyAdded P
              (settle b).payloads
              (purged_at (settle b).purge_ids (deleted_at (settle b).delete_ids g))
              (added_at P
                (settle b).payloads
                (purged_at (settle b).purge_ids (deleted_at (settle b).delete_ids g)))
        all_partly u = go (Dict.get u (settle b).payloads) refl
          where
            go :
                (o : Option DocumentPayload)
                → Dict.get u (settle b).payloads ≡ o
                → Partly P
                    (settle b).payloads
                    u
                    (purged_at (settle b).purge_ids (deleted_at (settle b).delete_ids g) u)
                    (added_from P o
                      (purged_at (settle b).purge_ids (deleted_at (settle b).delete_ids g) u))
            go none e = inl refl
            go (some p) e = inr (p, e, refl)

  -- Applying the round leaves documents that the store after precommit holds of, whether it
  -- returns or raises.
  pub apply_actions-Fits :
      (s : Fake)
      → Is handler.handle g s
      → EndsAs
          (λ _.
            Applied P diff handler g
              (Fits P profile_of id promised)
              (actions_of (outputs_of chosen keys)))
          (Left P diff handler g (Fits P profile_of id promised))
          (apply_actions P diff handler (actions_of (outputs_of chosen keys)) s)
  apply_actions-Fits s =
      apply_actions-Applied P diff handler g (Fits P profile_of id promised)
        (actions_of (outputs_of chosen keys)) s Fits-promised batch-IsKept
