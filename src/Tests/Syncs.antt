-- ===== src/Tests/Syncs.antt =====
-- A concrete sync, and the theorems on it.
use cogindex.Base.{
  [], ◌∷◌, ◌&&◌, not, none, some, codes, ◌≡◌, refl, ok, list_eq, nat_eq, pair_eq, ◌==◌, ==_sound,
  is_empty, arith, Bool-cases, inl, inr, if◌then◌else◌,
}
use mathlib.Core.Path.{subst}
use mathlib.Core.Option.{some-injective}
use cogindex.Base.Dict
use cogindex.Identity.{normalize_external_key}
use cogindex.Identity.Decimal.{decimal}
use cogindex.Identity.Join.{canonical_join}
use cogindex.Records.{record_eq}
use cogindex.Target.Statediff.{Diff, DiffAction, IsDiff, all_equal}
use cogindex.Target.Reconcile.{DocumentHandler, write_output, classify_write, ordered, other_ids}
use cogindex.Testing.Fake.{fake_acquire, fake_release, fake_add, fake_cognify}
use cogindex.Testing.Faults.{fault_op_eq}
use cogindex.Testing.Effects.Pointwise.{doc_at}
use cogindex.Engine.Entry.Holds.{IsSpec}
use cogindex.Engine.Round.{World, Declared, sync, sync_exit_after_apply, crash_before_apply}
use cogindex.Engine.Sync.Sound.{
  IsSound, IsDeclared, IsConvergedTo, sync-IsSound, sync-IsConvergedTo,
  sync_exit_after_apply-IsSound, crash_before_apply-IsSound,
}
use cogindex.Engine.Sync.Site.{IsKey}
use cogindex.Tests.{plain, plain-NamesApart, spec, main_id_lem}
use cogindex.Tests.Deployment.{profile, profile_of, handle, spec-IsSpec}

abbrev pub differ : Diff
differ d prev missing =
    if not missing && all_equal d prev
    then none
    else if is_empty prev
    then some DiffAction.insert
    else some DiffAction.replace

pub differ-IsDiff : IsDiff differ
differ-IsDiff = record {
  settled = λ d prev missing h. ground arith;
  quiet = λ d r prev h. ground arith;
  no_insert = λ d r prev h. ground arith;
  no_upsert = λ d r prev h. ground arith;
}

abbrev pub handler : DocumentHandler
handler = record {
  runtime_key = codes "main";
  handle = handle;
  profile = profile;
  processing_fingerprint = codes "p";
}

abbrev pub declared : Declared
declared = (codes "a.md", spec) ∷ []

abbrev pub nothing : World
nothing = record {
  tracking = [];
  fake = record { datasets = []; calls = []; identity_scope = codes "scope"; faults = [] };
}

pub nothing-IsSound : IsSound plain profile_of handler nothing
unfolding Dict.get doc_at
nothing-IsSound = record {
  known = λ k e h. absurd (cc h);
  fits = record { tracks = λ k. refl; owned = λ u d h. absurd (cc h) };
}

pub main-IsKey : IsKey plain handler (codes "a.md")
unfolding normalize_external_key nat_eq decimal
main-IsKey = (refl, main_id_lem)

pub declared-IsDeclared : IsDeclared plain profile_of handler declared
unfolding Dict.get
declared-IsDeclared k s h = elim (Bool-cases (k == codes "a.md")) [
  | inr q ↦ absurd (cc (rw q at h))
  | inl q ↦ (
    rw (==_sound k (codes "a.md") q) main-IsKey,
    subst (IsSpec plain) (some-injective spec s (rw q at h)) spec-IsSpec,
  )
]

sync-IsSound_example :
    IsSound plain profile_of handler (sync plain differ handler declared nothing).1
sync-IsSound_example =
    sync-IsSound plain profile_of handler differ differ-IsDiff plain-NamesApart refl declared
      declared-IsDeclared nothing nothing-IsSound

pub returned : (sync plain differ handler declared nothing).0 ≡ ok tt
unfolding sync nat_eq list_eq pair_eq fault_op_eq decimal canonical_join write_output classify_write
    fake_acquire fake_release ordered other_ids fake_add fake_cognify
returned = refl

sync-IsConvergedTo_example :
    IsConvergedTo plain profile_of handler declared (sync plain differ handler declared nothing).1
sync-IsConvergedTo_example =
    sync-IsConvergedTo plain profile_of handler differ differ-IsDiff plain-NamesApart refl declared
      declared-IsDeclared nothing nothing-IsSound returned

crash_before_apply-IsSound_example :
    IsSound plain profile_of handler (crash_before_apply plain differ handler declared nothing).1
crash_before_apply-IsSound_example =
    crash_before_apply-IsSound plain profile_of handler differ differ-IsDiff plain-NamesApart refl
      declared declared-IsDeclared nothing nothing-IsSound

sync_exit_after_apply-IsSound_example :
    IsSound plain profile_of handler (sync_exit_after_apply plain differ handler declared nothing).1
sync_exit_after_apply-IsSound_example =
    sync_exit_after_apply-IsSound plain profile_of handler differ differ-IsDiff plain-NamesApart
      refl declared declared-IsDeclared nothing nothing-IsSound
