-- ===== src/Engine/Outputs.antt =====
-- The outputs of a round, read off for one key: the entry after precommit and after commit, and
-- the action that the batch has for the key's identity.
use cogindex.Base.{
  List, [], ◌∷◌, Bool, true, false, Option, none, some, Text, list_eq, nat_eq, ◌==◌, ==_sound, ◌≡◌,
  refl, sym, ◌∙◌, ap, arith, contains, ok, if◌then◌else◌, Bool-cases, inl, inr,
}
use cogindex.Base.Dict
use cogindex.Base.Dict.{get-put, get-pop}
use cogindex.Identity.{Primitives}
use cogindex.Target.Reconcile.{DocumentAction, DocumentHandler, Output}
use cogindex.Records.{DocumentRecord}
use cogindex.Target.Statediff.{Diff}
use cogindex.Engine.Entry.{TrackEntry, extend, committed}
use cogindex.Engine.Entry.States.{extend_twice}
use cogindex.Engine.Round.{
  Declared, Tracking, keep_output, precommit, commit, commit_one, reconcile_key, reconcile_keys,
}

abbrev pub outputs_of : (Text → Option Output) → List Text → List (Text × Output)
outputs_of f [] = []
outputs_of f (k ∷ ks) = keep_output k (f k) (outputs_of f ks)

-- If every key reconciles to its output, then the round collects them.
pub reconcile_keys-outputs_of :
    (P : Primitives) (diff : Diff) (handler : DocumentHandler) (declared : Declared)
    (tracking : Tracking) (f : Text → Option Output) (ks : List Text)
    → ((k : Text)
        → contains k ks ≡ true
        → reconcile_key P diff handler declared tracking k ≡ ok (f k))
    → reconcile_keys P diff handler declared tracking ks ≡ ok (outputs_of f ks)
unfolding reconcile_keys
reconcile_keys-outputs_of P diff handler declared tracking f [] h = refl
reconcile_keys-outputs_of P diff handler declared tracking f (k ∷ ks) h =
    rw
      (
        h k (ground arith),
        reconcile_keys-outputs_of P diff handler declared tracking f ks (λ j m. h j (ground arith)),
      )
      refl

abbrev pub only_if : Bool → Option Output → Option Output
only_if b o = if b then o else none

abbrev pub precommitted : Option Output → Option TrackEntry → Option TrackEntry
precommitted none e = e
precommitted (some out) e = some (extend out.tracking_record e)

abbrev pub recorded : Option DocumentRecord → Option TrackEntry
recorded none = none
recorded (some r) = some (committed r)

abbrev pub settled : Option Output → Option TrackEntry → Option TrackEntry
settled none e = e
settled (some out) e = recorded out.tracking_record

abbrev pub action_of : Option Output → Option DocumentAction
action_of none = none
action_of (some out) = some out.action

-- A second output of a key changes nothing.
precommitted_twice :
    (b : Bool) (o : Option Output) (e : Option TrackEntry)
    → precommitted (only_if b o) (precommitted o e) ≡ precommitted o e
precommitted_twice true none e = refl
precommitted_twice false none e = refl
precommitted_twice true (some out) e = ap some (extend_twice out.tracking_record e)
precommitted_twice false (some out) e = refl

settled_twice :
    (b : Bool) (o : Option Output) (e : Option TrackEntry)
    → settled (only_if b o) (settled o e) ≡ settled o e
settled_twice true none e = refl
settled_twice false none e = refl
settled_twice true (some out) e = refl
settled_twice false (some out) e = refl

-- The change of one key's entry
abbrev at_key : Text → Text → (Option TrackEntry → Option TrackEntry) → Tracking → Option TrackEntry
at_key k j change tracking = if k == j then change (Dict.get k tracking) else Dict.get k tracking

at_key-same :
    (k j : Text) (tracking : Tracking) → at_key k j (λ e. e) tracking ≡ Dict.get k tracking
at_key-same k j tracking = elim (Bool-cases (k == j)) [ inl e ↦ rw e | inr e ↦ rw e ]

get-precommit_one :
    (k j : Text) (o m : Option Output) (rest : List (Text × Output)) (tracking : Tracking)
    → ((t : Tracking) → Dict.get k (precommit rest t) ≡ precommitted m (Dict.get k t))
    → Dict.get k (precommit (keep_output j o rest) tracking)
      ≡ precommitted m (at_key k j (precommitted o) tracking)
unfolding precommit
get-precommit_one k j none m rest tracking ih =
    ih tracking ∙ ap (precommitted m) (sym (at_key-same k j tracking))
get-precommit_one k j (some out) m rest tracking ih =
    ih _
    ∙ ap (precommitted m) (
        get-put j k (extend out.tracking_record (Dict.get j tracking)) tracking
        ∙ (elim (Bool-cases (k == j)) [ inl e ↦ rw (e, ==_sound k j e) | inr e ↦ rw e ]))

get-commit_one :
    (k j : Text) (o m : Option Output) (rest : List (Text × Output)) (tracking : Tracking)
    → ((t : Tracking) → Dict.get k (commit rest t) ≡ settled m (Dict.get k t))
    → Dict.get k (commit (keep_output j o rest) tracking)
      ≡ settled m (at_key k j (settled o) tracking)
unfolding commit
get-commit_one k j none m rest tracking ih =
    ih tracking ∙ ap (settled m) (sym (at_key-same k j tracking))
get-commit_one k j (some out) m rest tracking ih = ih _ ∙ ap (settled m) (one out.tracking_record)
  where
    one :
        (r : Option DocumentRecord)
        → Dict.get k (commit_one j r tracking)
          ≡ (if k == j then recorded r else Dict.get k tracking)
    one none = get-pop j k tracking
    one (some r) = get-put j k (committed r) tracking

module _ (f : Text → Option Output) where
  joined :
      (k j : Text) (ks : List Text) (tracking : Tracking)
      (change : Option Output → Option TrackEntry → Option TrackEntry)
      → ((b : Bool) (o : Option Output) (e : Option TrackEntry)
          → change (only_if b o) (change o e) ≡ change o e)
      → change (only_if (contains k ks) (f k)) (at_key k j (change (f j)) tracking)
        ≡ change (only_if (contains k (j ∷ ks)) (f k)) (Dict.get k tracking)
  joined k j ks tracking change twice = elim (Bool-cases (k == j)) [
    | inl e ↦ rw (e, ← ==_sound k j e) (twice (contains k ks) (f k) (Dict.get k tracking))
    | inr e ↦ rw e
  ]

  pub get-precommit :
      (k : Text) (ks : List Text) (tracking : Tracking)
      → Dict.get k (precommit (outputs_of f ks) tracking)
        ≡ precommitted (only_if (contains k ks) (f k)) (Dict.get k tracking)
  unfolding precommit
  get-precommit k [] tracking = refl
  get-precommit k (j ∷ ks) tracking =
      get-precommit_one k j (f j) (only_if (contains k ks) (f k)) (outputs_of f ks) tracking
        (get-precommit k ks)
      ∙ joined k j ks tracking precommitted precommitted_twice

  pub get-commit :
      (k : Text) (ks : List Text) (tracking : Tracking)
      → Dict.get k (commit (outputs_of f ks) tracking)
        ≡ settled (only_if (contains k ks) (f k)) (Dict.get k tracking)
  unfolding commit
  get-commit k [] tracking = refl
  get-commit k (j ∷ ks) tracking =
      get-commit_one k j (f j) (only_if (contains k ks) (f k)) (outputs_of f ks) tracking
        (get-commit k ks)
      ∙ joined k j ks tracking settled settled_twice
