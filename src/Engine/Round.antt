-- ===== src/Engine/Round.antt =====
-- EmulatedEngine: the phases of a cycle, and the cycles.
use cogindex.Base.{
  List, [], ◌∷◌, Bool, true, false, Option, none, some, Text, text_leb, list_eq, nat_eq, Result, ok,
  err, ◌>>=◌, map, if◌then◌else◌,
}
use cogindex.Base.Dict
use cogindex.Base.Dict.{Dict}
use cogindex.Base.Exec.{Exec}
use cogindex.Base.Sets
use cogindex.Engine.Entry.{TrackEntry, previous, missing, extend, committed}
use cogindex.Records.{DocumentRecord}
use cogindex.Identity.{Primitives}
use cogindex.Spec.Document.{CogneeDocumentSpec}
use cogindex.Target.Statediff.{Diff}
use cogindex.Target.Reconcile.{DocumentHandler, DocumentAction, Output, reconcile}
use cogindex.Target.Apply.{apply}
use cogindex.Testing.Faults.{Fake}
use cogindex.Testing.Fake.{fake_runtime}

abbrev pub Declared : Type 0
Declared = Dict Text CogneeDocumentSpec

abbrev pub Tracking : Type 0
Tracking = Dict Text TrackEntry

-- The tracking store and the deployment.
pub record World : Type 0 where
  pub tracking : Tracking
  pub fake : Fake

-- `sorted(set(declared) | set(tracking))`
unfoldable pub round_keys : Declared → Tracking → List Text
unfolding Sets.sorted text_leb Sets.update Dict.keys
round_keys declared tracking =
    Sets.sorted text_leb (Sets.update (Dict.keys tracking) (Sets.update (Dict.keys declared) []))

abbrev pub keep_output : Text → Option Output → List (Text × Output) → List (Text × Output)
keep_output key none outputs = outputs
keep_output key (some out) outputs = (key, out) ∷ outputs

unfoldable pub precommit : List (Text × Output) → Tracking → Tracking
unfolding extend Dict.get Dict.put
precommit [] tracking = tracking
precommit ((key, out) ∷ rest) tracking =
    precommit rest (Dict.put key (extend out.tracking_record (Dict.get key tracking)) tracking)

abbrev pub commit_one : Text → Option DocumentRecord → Tracking → Tracking
commit_one key none tracking = Dict.pop key tracking
commit_one key (some r) tracking = Dict.put key (committed r) tracking

unfoldable pub commit : List (Text × Output) → Tracking → Tracking
unfolding committed Dict.pop Dict.put
commit [] tracking = tracking
commit ((key, out) ∷ rest) tracking = commit rest (commit_one key out.tracking_record tracking)

-- `invalidate_lossy`
unfoldable pub invalidate_lossy : Tracking → Tracking
invalidate_lossy = map (λ e. (e.0, record (e.1) { may_be_missing = true }))

abbrev pub actions_of : List (Text × Output) → List DocumentAction
actions_of = map (λ e. e.1.action)

module _ (P : Primitives) (diff : Diff) (handler : DocumentHandler) where
  unfoldable pub reconcile_key : Declared → Tracking → Text → Result (Option Output)
  unfolding reconcile previous missing Dict.get
  reconcile_key declared tracking key =
      let entry = Dict.get key tracking in
      reconcile P diff handler key (Dict.get key declared) (previous entry) (missing entry)

  unfoldable pub reconcile_keys : Declared → Tracking → List Text → Result (List (Text × Output))
  unfolding reconcile_key
  reconcile_keys declared tracking [] = ok []
  reconcile_keys declared tracking (key ∷ keys) =
      let rest = reconcile_keys declared tracking keys in
      reconcile_key declared tracking key >>= λ out.
      rest >>= λ outputs. ok (keep_output key out outputs)

  unfoldable pub reconcile_round : Declared → Tracking → Result (List (Text × Output))
  unfolding reconcile_keys round_keys
  reconcile_round declared tracking =
      reconcile_keys declared tracking (round_keys declared tracking)

  -- `apply`: no actions, no call of the sink.
  unfoldable pub apply_actions : List DocumentAction → Exec Fake (Unit {0})
  unfolding apply
  apply_actions [] s = (ok tt, s)
  apply_actions (a ∷ actions) s = apply (fake_runtime P) handler (a ∷ actions) s

  -- The cycle after reconcile: precommit, apply, and commit if nothing was raised and the process
  -- lives on. `sync` and `sync_expect_crash` commit, `sync_exit_after_apply` does not.
  unfoldable pub finish_cycle : Bool → List (Text × Output) → Exec World (Unit {0})
  unfolding precommit commit apply_actions
  finish_cycle commits outputs w =
      let tracking = precommit outputs w.tracking in
      let applied = apply_actions (actions_of outputs) w.fake in
      elim applied.0 [
        | err e ↦ (err e, record { tracking = tracking; fake = applied.1 })
        | ok _ ↦ (
          ok tt,
          record {
            tracking = if commits then commit outputs tracking else tracking;
            fake = applied.1;
          },
        )
      ]

  unfoldable pub cycle : Bool → Declared → Exec World (Unit {0})
  unfolding reconcile_round finish_cycle
  cycle commits declared w = elim (reconcile_round declared w.tracking) [
    | err e ↦ (err e, w)
    | ok outputs ↦ finish_cycle commits outputs w
  ]

  unfoldable pub sync : Declared → Exec World (Unit {0})
  unfolding cycle
  sync = cycle true

  unfoldable pub sync_exit_after_apply : Declared → Exec World (Unit {0})
  unfolding cycle
  sync_exit_after_apply = cycle false

  -- The process dies between precommit and the first external write.
  unfoldable pub crash_before_apply : Declared → Exec World (Unit {0})
  unfolding reconcile_round precommit
  crash_before_apply declared w = elim (reconcile_round declared w.tracking) [
    | err e ↦ (err e, w)
    | ok outputs ↦ (ok tt, record w { tracking = precommit outputs w.tracking })
  ]
