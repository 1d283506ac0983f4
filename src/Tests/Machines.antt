-- ===== src/Tests/Machines.antt =====
-- Concrete histories of the convergence machine, and the theorems on them.
use cogindex.Base.{List, [], ◌∷◌, codes, ◌≡◌, refl, Result, ok, true, list_eq, nat_eq}
use cogindex.Base.Dict
use cogindex.Testing.Faults.{add_documents}
use cogindex.Testing.Effects.Tame.{IsCalm}
use cogindex.Engine.Round.{World, sync, cycle}
use cogindex.Engine.Sync.Sound.{IsConvergedTo}
use cogindex.Engine.Sync.Quiet.{sync_again}
use cogindex.Engine.Sync.Returns.{cycle_returns}
use cogindex.Engine.Machine.{Machine, Rule, run, handler_at, synced}
use cogindex.Engine.Machine.Invariant.{IsGood, AreAllowed}
use cogindex.Engine.Machine.Converges.{run-IsGood, run-Converges}
use cogindex.Tests.{plain, plain-NamesApart, spec}
use cogindex.Tests.Deployment.{profile_of, spec-IsSpec}
use cogindex.Tests.Syncs.{
  differ, differ-IsDiff, handler, declared, declared-IsDeclared, nothing, nothing-IsSound,
  main-IsKey, returned,
}

abbrev start : Machine
start = record { declared = []; config_fp = codes "p"; world = nothing }

nothing-IsCalm : IsCalm handler.handle nothing.fake
unfolding Dict.get list_eq nat_eq
nothing-IsCalm = record { scoped = refl; quiet = λ op. refl }

start-IsGood : IsGood plain profile_of handler start
unfolding Dict.get
start-IsGood = record {
  sound = nothing-IsSound;
  ready = λ k s h. absurd (cc h);
  calm = nothing-IsCalm;
}

-- A partial add, a change of the configuration, and an exit before commit.
abbrev rules : List Rule
rules =
    Rule.declare (codes "a.md") spec
    ∷ Rule.sync_crash_mid_batch add_documents 0
    ∷ Rule.change_config (codes "q")
    ∷ Rule.sync_exit_after_apply
    ∷ Rule.sync_crash_before_apply
    ∷ []

rules-AreAllowed : AreAllowed plain profile_of handler rules
rules-AreAllowed = ((main-IsKey, spec-IsSpec), (tt, (tt, (tt, (tt, tt)))))

sync_again_example :
    sync plain differ handler declared (sync plain differ handler declared nothing).1
    ≡ (ok tt, (sync plain differ handler declared nothing).1)
sync_again_example =
    sync_again plain profile_of handler differ differ-IsDiff plain-NamesApart refl declared
      declared-IsDeclared nothing nothing-IsSound returned

cycle_returns_example :
    ((cycle plain differ handler true declared nothing).0 ≡ ok tt)
    × IsCalm handler.handle (cycle plain differ handler true declared nothing).1.fake
cycle_returns_example =
    cycle_returns plain profile_of handler differ differ-IsDiff plain-NamesApart refl declared
      declared-IsDeclared nothing nothing-IsSound true nothing-IsCalm

run-IsGood_example :
    IsGood plain profile_of handler (run plain differ profile_of handler rules start)
run-IsGood_example =
    run-IsGood plain differ differ-IsDiff plain-NamesApart profile_of handler rules start
      rules-AreAllowed start-IsGood

abbrev after : Machine
after = run plain differ profile_of handler rules start

abbrev last : Machine → Result (Unit {0}) × World
last = synced plain differ profile_of handler

run-Converges_example :
    ((last after).0 ≡ ok tt)
    × IsConvergedTo plain profile_of
        (handler_at profile_of handler after.config_fp)
        after.declared
        (last after).1
    × (last (record after { world = (last after).1 }) ≡ (ok tt, (last after).1))
run-Converges_example =
    run-Converges plain differ differ-IsDiff plain-NamesApart profile_of handler rules start
      rules-AreAllowed start-IsGood
