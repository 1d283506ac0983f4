-- ===== src/Engine/Machine.antt =====
-- ConvergenceMachine of tests/property/test_convergence_machine.py: the rules that declare
-- documents, change the configuration, and run cycles that succeed, fail or are cut off.
pub mod Invariant
pub mod Converges
use cogindex.Base.{
  ℕ, List, [], ◌∷◌, Bool, false, Option, none, some, Text, list_eq, nat_eq, ◌==◌, is_empty, Result,
  ok, err, injected_fault, if◌then◌else◌,
}
use cogindex.Base.Dict
use cogindex.Identity.{Primitives}
use cogindex.Spec.Profile.{CognifyProfile}
use cogindex.Spec.Document.{CogneeDocumentSpec}
use cogindex.Target.Statediff.{Diff}
use cogindex.Target.Reconcile.{DocumentHandler, Output}
use cogindex.Testing.Faults.{FaultOp, Fake, fault_op_eq, add_documents, inject_fault, clear_faults}
use cogindex.Engine.Round
use cogindex.Engine.Round.{World, Declared, invalidate_lossy, reconcile_round}

pub record Machine : Type 0 where
  pub declared : Declared
  pub config_fp : Text
  pub world : World

pub data Rule : Type 0 where
  declare : Text → CogneeDocumentSpec → Rule
  undeclare : Text → Rule
  change_config : Text → Rule
  sync_ok : Rule
  sync_crash_mid_batch : FaultOp → ℕ → Rule
  sync_crash_before_apply : Rule
  sync_exit_after_apply : Rule

-- Only a fault of add_documents counts items.
unfoldable pub after_of : FaultOp → ℕ → Option ℕ
unfolding fault_op_eq
after_of op after = if op == add_documents then some after else none

module _ (profile_of : Text → CognifyProfile) (base : DocumentHandler) where
  -- `self.handlers[fp]`: the handlers differ in profile and fingerprint alone.
  abbrev pub handler_at : Text → DocumentHandler
  handler_at fp = record base { profile = profile_of fp; processing_fingerprint = fp }

-- `change_config`
unfoldable pub reconfigured : Text → Machine → Machine
unfolding invalidate_lossy
reconfigured fp m = if fp == m.config_fp then m else record m {
  config_fp = fp;
  world = record (m.world) { tracking = invalidate_lossy m.world.tracking };
}

module _ (P : Primitives) (diff : Diff) (profile_of : Text → CognifyProfile)
    (base : DocumentHandler) where
  -- A sync under one injected fault, which is cleared however the sync ends.
  unfoldable pub faulty_sync : FaultOp → ℕ → Machine → World
  unfolding inject_fault clear_faults Round.sync after_of
  faulty_sync op after m =
      let injected = inject_fault op 1 (after_of op after) false injected_fault m.world.fake in
      let done =
        Round.sync P diff (handler_at profile_of base m.config_fp) m.declared
          (record (m.world) { fake = injected.1 }) in
      record (done.1) { fake = clear_faults done.1.fake }

  unfoldable pub crash_mid_batch : FaultOp → ℕ → Machine → Result (List (Text × Output)) → Machine
  unfolding faulty_sync
  crash_mid_batch op after m (err e) = m
  crash_mid_batch op after m (ok []) = m
  crash_mid_batch op after m (ok (x ∷ outputs)) = record m { world = faulty_sync op after m }

  unfoldable pub step : Rule → Machine → Machine
  unfolding reconfigured crash_mid_batch reconcile_round Round.sync Round.crash_before_apply
      Round.sync_exit_after_apply Dict.put Dict.pop
  step (Rule.declare key spec) m = record m { declared = Dict.put key spec m.declared }
  step (Rule.undeclare key) m = record m { declared = Dict.pop key m.declared }
  step (Rule.change_config fp) m = reconfigured fp m
  step Rule.sync_ok m = record m {
    world = (Round.sync P diff (handler_at profile_of base m.config_fp) m.declared m.world).1;
  }
  step (Rule.sync_crash_mid_batch op after) m =
      crash_mid_batch op after m (
        reconcile_round P diff (handler_at profile_of base m.config_fp) m.declared m.world.tracking)
  step Rule.sync_crash_before_apply m = record m {
    world =
        (Round.crash_before_apply P diff (handler_at profile_of base m.config_fp) m.declared
          m.world).1;
  }
  step Rule.sync_exit_after_apply m = record m {
    world =
        (Round.sync_exit_after_apply P diff (handler_at profile_of base m.config_fp) m.declared
          m.world).1;
  }

  unfoldable pub run : List Rule → Machine → Machine
  unfolding step
  run [] m = m
  run (r ∷ rules) m = run rules (step r m)

  -- A sync of the machine's declarations.
  abbrev pub synced : Machine → Result (Unit {0}) × World
  synced m = Round.sync P diff (handler_at profile_of base m.config_fp) m.declared m.world
