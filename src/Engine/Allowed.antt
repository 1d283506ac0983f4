-- ===== src/Engine/Allowed.antt =====
-- What the batch does to a key's document is what the key's entry after precommit allows, and it
-- makes the document of a declared key the converged one.
use cogindex.Base.{
  Bool, true, false, Option, none, some, Text, list_eq, nat_eq, ◌≡◌, refl, arith, contains,
}
use cogindex.Base.Dict
use cogindex.Identity.{Primitives, Uuid}
use cogindex.Records.{record_eq}
use cogindex.Runtime.{DocumentPayload}
use cogindex.Spec.Profile.{CognifyProfile}
use cogindex.Spec.Document.{CogneeDocumentSpec}
use cogindex.Target.Statediff.{Diff}
use cogindex.Target.Reconcile.{
  DocumentOp, upsert, replace, recreate, update_metadata, delete, Output, payload_for,
  delete_output, write_output,
}
use cogindex.Target.Apply.{Batch}
use cogindex.Target.Apply.Marks.{Settled, is_delete, written_of}
use cogindex.Engine.Entry.{TrackEntry, previous, missing}
use cogindex.Engine.Entry.Holds.{IsSpec}
use cogindex.Engine.Entry.Holds.Start.{IsUnsettled-of_delete, contains-extend_self}
use cogindex.Engine.Outputs.{precommitted, only_if, action_of}
use cogindex.Engine.Stages.{Clearable, Addable}
use cogindex.Engine.Decision.{
  Decided, absent, removed, same, written_as, wanted, planned, clear_write,
  classify_write-not_delete,
}

module _ (diff : Diff) (processing : Text) (key : Text) (u : Uuid) (e : Option TrackEntry)
    (P : Primitives) (profile_of : Text → CognifyProfile) (b : Batch) where
  -- What an entry allows the batch to do to the identity
  abbrev pub IsAllowed : Option TrackEntry → Type 0
  IsAllowed e' =
      (contains u b.delete_ids ≡ true → Clearable e')
      × (contains u b.purge_ids ≡ true → Clearable e')
      × Addable P profile_of u e' (Dict.get u b.payloads)

  nothing-IsAllowed : (e' : Option TrackEntry) → Settled u b none → IsAllowed e'
  nothing-IsAllowed e' m =
      ((λ h. absurd (cc (h, m.deleted))), (λ h. absurd (cc (h, m.purged))), rw m.payload tt)

  written_payload :
      (op : DocumentOp) (p : DocumentPayload)
      → is_delete op ≡ false
      → written_of op (some p) ≡ some p
  written_payload delete p h = absurd (cc h)
  written_payload upsert p h = refl
  written_payload replace p h = refl
  written_payload recreate p h = refl
  written_payload update_metadata p h = refl

  pub Decided-IsAllowed :
      (c : Bool) (d : Option CogneeDocumentSpec) (m : Option Output)
      → Decided diff processing key u e d m
      → ((s : CogneeDocumentSpec) → d ≡ some s → IsSpec P s)
      → Settled u b (action_of (only_if c m))
      → IsAllowed (precommitted (only_if c m) e)
  unfolding delete_output write_output previous
  Decided-IsAllowed false d m x good t = nothing-IsAllowed e t
  Decided-IsAllowed true d m (absent x y) good t = nothing-IsAllowed e t
  Decided-IsAllowed true d m (same s q) good t = nothing-IsAllowed e t
  Decided-IsAllowed true d m removed good t =
      ((λ h. IsUnsettled-of_delete e), (λ h. IsUnsettled-of_delete e), rw t.payload tt)
  Decided-IsAllowed true d m (written_as s a q) good t =
      let op = planned diff processing key u e s a in
      (
        (λ h. clear_write diff processing key u e P profile_of s a (ground (arith, t.deleted, h))),
        (λ h. clear_write diff processing key u e P profile_of s a (ground (arith, t.purged, h))),
        rw
            (
              t.payload,
              written_payload op (payload_for u s) (
                  classify_write-not_delete a (wanted diff processing key u e s) (previous e)
                    (missing e)),
            )
            (
              s,
              processing,
              good s refl,
              refl,
              contains-extend_self (wanted diff processing key u e s) e,
            ),
      )
