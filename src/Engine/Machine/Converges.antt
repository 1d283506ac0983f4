-- ===== src/Engine/Machine/Converges.antt =====
-- Every rule keeps the machine's invariant, and a sync after any rules converges.
use cogindex.Base.{
  ℕ, List, [], ◌∷◌, true, false, Text, list_eq, nat_eq, ◌==◌, ◌≡◌, refl, Result, ok, err,
  injected_fault, Bool-cases, inl, inr,
}
use cogindex.Identity.{Primitives}
use cogindex.Identity.Distinct.{NamesApart}
use cogindex.Spec.Profile.{CognifyProfile}
use cogindex.Target.Statediff.{Diff, IsDiff}
use cogindex.Target.Reconcile.{DocumentHandler, Output}
use cogindex.Testing.Faults.{FaultOp, inject_fault, clear_faults}
use cogindex.Engine.Round
use cogindex.Engine.Round.{World, reconcile_round, invalidate_lossy}
use cogindex.Engine.Sync.Sound.{
  IsSound, IsConvergedTo, sync-IsSound, sync_exit_after_apply-IsSound, crash_before_apply-IsSound,
  sync-IsConvergedTo,
}
use cogindex.Engine.Sync.Quiet.{sync_again}
use cogindex.Engine.Sync.Returns.{cycle_returns, cycle-IsScoped}
use cogindex.Engine.Machine.{
  Machine, Rule, after_of, handler_at, reconfigured, faulty_sync, crash_mid_batch, step, run,
  synced,
}
use cogindex.Engine.Machine.Invariant.{
  IsGood, IsAllowed, AreAllowed, at_config, from_config, invalidate-IsSound, refaked, inject_same,
  inject-IsScoped, clear_same, clear-IsCalm, ready-put, ready-pop,
}

module _ (P : Primitives) (diff : Diff) (law : IsDiff diff) (apart : NamesApart P)
    (profile_of : Text → CognifyProfile) (base : DocumentHandler) where
  abbrev Good : Machine → Type 0
  Good = IsGood P profile_of base

  abbrev handler_of : Machine → DocumentHandler
  handler_of m = handler_at profile_of base m.config_fp

  Good-at : (m : Machine) → Good m → IsSound P profile_of (handler_of m) m.world
  Good-at m g = at_config P profile_of base m.config_fp m.world g.sound

  reconfigured-IsGood : (fp : Text) (m : Machine) → Good m → Good (reconfigured fp m)
  unfolding reconfigured
  reconfigured-IsGood fp m g = elim (Bool-cases (fp == m.config_fp)) [
    | inl q ↦ rw q g
    | inr q ↦ rw q (record {
      sound = invalidate-IsSound P profile_of base m.world g.sound;
      ready = g.ready;
      calm = g.calm;
    })
  ]

  module _ (op : FaultOp) (after : ℕ) (m : Machine) (g : Good m) where
    abbrev faulty : World
    faulty = record (m.world) {
      fake = (inject_fault op 1 (after_of op after) false injected_fault m.world.fake).1;
    }

    faulty-IsSound : IsSound P profile_of (handler_of m) faulty
    faulty-IsSound = at_config P profile_of base m.config_fp faulty (
        refaked P profile_of base m.world faulty.fake
          (inject_same P profile_of base op (after_of op after) m.world.fake) g.sound)

    abbrev done : World
    done = (Round.sync P diff (handler_of m) m.declared faulty).1

    faulty_sync-IsGood : Good (record m { world = faulty_sync P diff profile_of base op after m })
    unfolding faulty_sync Round.sync
    faulty_sync-IsGood = record {
      sound =
          refaked P profile_of base done (clear_faults done.fake)
            (clear_same P profile_of base done.fake)
            (from_config P profile_of base m.config_fp done (
              sync-IsSound P profile_of (handler_of m) diff law apart refl m.declared g.ready faulty
                faulty-IsSound));
      ready = g.ready;
      calm = clear-IsCalm P profile_of base done.fake (
          cycle-IsScoped P profile_of (handler_of m) diff law apart refl m.declared g.ready faulty
            faulty-IsSound true
            (inject-IsScoped P profile_of base op (after_of op after) m.world.fake g.calm.scoped));
    }

    crash_mid_batch-IsGood :
        (r : Result (List (Text × Output)))
        → Good (crash_mid_batch P diff profile_of base op after m r)
    unfolding crash_mid_batch
    crash_mid_batch-IsGood (err e) = g
    crash_mid_batch-IsGood (ok []) = g
    crash_mid_batch-IsGood (ok (x ∷ outputs)) = faulty_sync-IsGood

  abbrev crash_ends : Machine → Result (List (Text × Output)) → Result (Unit {0}) × World
  crash_ends m r = elim r [
    | err x ↦ (err x, m.world)
    | ok outputs ↦ (ok tt, record (m.world) { tracking = Round.precommit outputs m.world.tracking })
  ]

  crash_keeps_fake :
      (m : Machine) (r : Result (List (Text × Output))) → (crash_ends m r).1.fake ≡ m.world.fake
  crash_keeps_fake m (err x) = refl
  crash_keeps_fake m (ok outputs) = refl

  crashed_fake :
      (m : Machine)
      → (Round.crash_before_apply P diff (handler_of m) m.declared m.world).1.fake ≡ m.world.fake
  unfolding Round.crash_before_apply
  crashed_fake m =
      crash_keeps_fake m (reconcile_round P diff (handler_of m) m.declared m.world.tracking)

  step-IsGood :
      (r : Rule) (m : Machine)
      → IsAllowed P profile_of base r
      → Good m
      → Good (step P diff profile_of base r m)
  unfolding step Round.sync Round.sync_exit_after_apply
  step-IsGood (Rule.declare key spec) m a g = record {
    sound = g.sound;
    ready = ready-put P profile_of base key spec m.declared a g.ready;
    calm = g.calm;
  }
  step-IsGood (Rule.undeclare key) m a g = record {
    sound = g.sound;
    ready = ready-pop P profile_of base key m.declared g.ready;
    calm = g.calm;
  }
  step-IsGood (Rule.change_config fp) m a g = reconfigured-IsGood fp m g
  step-IsGood Rule.sync_ok m a g = record {
    sound = from_config P profile_of base m.config_fp _ (
        sync-IsSound P profile_of (handler_of m) diff law apart refl m.declared g.ready m.world
          (Good-at m g));
    ready = g.ready;
    calm =
        (cycle_returns P profile_of (handler_of m) diff law apart refl m.declared g.ready m.world
          (Good-at m g) true g.calm).1;
  }
  step-IsGood (Rule.sync_crash_mid_batch op after) m a g = crash_mid_batch-IsGood op after m g _
  step-IsGood Rule.sync_crash_before_apply m a g = record {
    sound = from_config P profile_of base m.config_fp _ (
        crash_before_apply-IsSound P profile_of (handler_of m) diff law apart refl m.declared
          g.ready m.world (Good-at m g));
    ready = g.ready;
    calm = rw crashed_fake g.calm;
  }
  step-IsGood Rule.sync_exit_after_apply m a g = record {
    sound = from_config P profile_of base m.config_fp _ (
        sync_exit_after_apply-IsSound P profile_of (handler_of m) diff law apart refl m.declared
          g.ready m.world (Good-at m g));
    ready = g.ready;
    calm =
        (cycle_returns P profile_of (handler_of m) diff law apart refl m.declared g.ready m.world
          (Good-at m g) false g.calm).1;
  }

  -- If the diff behaves as documented, UUID5 tells different names apart, and the rules declare
  -- only constructed documents under normalized keys with identities, then any sequence of rules
  -- takes a machine whose world is sound, whose declarations are good and whose emulator has the
  -- handle's identity scope and no scripted fault to another such machine: failures under an
  -- injected fault, exits and changes of the configuration included.
  pub run-IsGood :
      (rules : List Rule) (m : Machine)
      → AreAllowed P profile_of base rules
      → IsGood P profile_of base m
      → IsGood P profile_of base (run P diff profile_of base rules m)
  unfolding run
  run-IsGood [] m a g = g
  run-IsGood (r ∷ rules) m (a, rest) g = run-IsGood rules _ rest (step-IsGood r m a g)

  -- If the diff behaves as documented, UUID5 tells different names apart, the rules declare only
  -- constructed documents under normalized keys with identities, and the machine that they start
  -- from is good, then after any sequence of rules a sync returns, leaves the converged documents
  -- of the declarations and no others, and a further sync returns and changes nothing.
  pub run-Converges :
      (rules : List Rule) (m : Machine)
      → AreAllowed P profile_of base rules
      → IsGood P profile_of base m
      → let n = run P diff profile_of base rules m in
        ((synced P diff profile_of base n).0 ≡ ok tt)
        × IsConvergedTo P profile_of (handler_of n) n.declared (synced P diff profile_of base n).1
        × (synced P diff profile_of base (record n { world = (synced P diff profile_of base n).1 })
            ≡ (ok tt, (synced P diff profile_of base n).1))
  unfolding Round.sync
  run-Converges rules m a g0 =
      let n = run P diff profile_of base rules m in
      let g = run-IsGood rules m a g0 in
      let returned =
        (cycle_returns P profile_of (handler_of n) diff law apart refl n.declared g.ready n.world
          (Good-at n g) true g.calm).0 in
      (
        returned,
        sync-IsConvergedTo P profile_of (handler_of n) diff law apart refl n.declared g.ready
            n.world (Good-at n g) returned,
        sync_again P profile_of (handler_of n) diff law apart refl n.declared g.ready n.world
            (Good-at n g) returned,
      )
