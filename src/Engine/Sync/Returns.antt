-- ===== src/Engine/Sync/Returns.antt =====
-- A sync that no scripted fault meets returns, and a sync keeps the emulator's identity scope.
use cogindex.Base.{
  List, [], ◌∷◌, Bool, true, ◌||◌, Option, none, some, Text, list_eq, nat_eq, ◌≡◌, refl, sym, arith,
  all, is_some, Result, ok, err, if◌then◌else◌,
}
use mathlib.Core.Path.{subst}
use mathlib.Core.Option.{some-injective}
use cogindex.Base.Sets
use cogindex.Identity.{Primitives, Uuid}
use cogindex.Identity.Distinct.{NamesApart}
use cogindex.Spec.Profile.{CognifyProfile}
use cogindex.Spec.Document.{CogneeDocumentSpec}
use cogindex.Target.Statediff.{Diff, IsDiff}
use cogindex.Target.Reconcile.{
  DocumentHandler, DocumentAction, DocumentOp, upsert, replace, recreate, update_metadata, delete,
  Output, delete_output, write_output,
}
use cogindex.Target.Apply.{
  Batch, empty_batch, collect, collect_one, collect_op, settle, apply, with_lock, run_phases,
}
use cogindex.Target.Apply.Marks.{is_delete}
use cogindex.Testing.Faults.{Fake}
use cogindex.Testing.Fake.{fake_runtime}
use cogindex.Testing.Effects.Outcome.{Ends, EndsAs}
use cogindex.Testing.Effects.Tame.{
  IsTame, Broken, with_lock_tame, IsScoped, IsTame-IsScoped, IsCalm, IsTame-IsCalm,
}
use cogindex.Engine.Entry.{TrackEntry}
use cogindex.Engine.Decision.{Decided, absent, removed, same, written_as}
use cogindex.Engine.Outputs.{outputs_of}
use cogindex.Engine.Round.{
  World, Declared, precommit, commit, actions_of, round_keys, apply_actions, finish_cycle, cycle,
  keep_output,
}
use cogindex.Engine.Sync.Site.{reconcile_round-outputs_of}
use cogindex.Engine.Sync.Step.{chosen-Decided}
use cogindex.Engine.Sync.Sound.{IsSound, IsDeclared, outs, chosen}

-- A write has a payload.
abbrev is_complete : DocumentAction → Bool
is_complete a = is_delete a.op || is_some a.payload

collect_op_returns :
    (op : DocumentOp) (u : Uuid) (p : Option _) (b : Batch)
    → is_delete op || is_some p ≡ true
    → (b' : Batch) × (collect_op op u p b ≡ ok b')
unfolding collect_op
collect_op_returns delete u p b h = (_, refl)
collect_op_returns upsert u (some p) b h = (_, refl)
collect_op_returns replace u (some p) b h = (_, refl)
collect_op_returns recreate u (some p) b h = (_, refl)
collect_op_returns update_metadata u (some p) b h = (_, refl)
collect_op_returns upsert u none b h = absurd (cc h)
collect_op_returns replace u none b h = absurd (cc h)
collect_op_returns recreate u none b h = absurd (cc h)
collect_op_returns update_metadata u none b h = absurd (cc h)

collect_returns :
    (actions : List DocumentAction) (b : Batch)
    → all is_complete actions ≡ true
    → (b' : Batch) × (collect actions b ≡ ok b')
unfolding collect collect_one
collect_returns [] b h = (b, refl)
collect_returns (a ∷ rest) b h =
    let first : is_complete a ≡ true = ground arith in
    let others : all is_complete rest ≡ true = ground arith in
    let (b1, e1) =
      collect_op_returns a.op a.data_id a.payload
        (record b { delete_ids = Sets.update a.stale_data_ids b.delete_ids }) first in
    let (b2, e2) = collect_returns rest b1 others in (b2, rw e1 e2)

Decided-complete :
    (diff : Diff) (processing key : Text) (u : Uuid) (e : Option TrackEntry)
    (d : Option CogneeDocumentSpec) (m : Option Output)
    → Decided diff processing key u e d m
    → (out : Output) → m ≡ some out
    → is_complete out.action ≡ true
unfolding delete_output write_output
Decided-complete diff processing key u e d m (absent x y) out h = absurd (cc h)
Decided-complete diff processing key u e d m (same s q) out h = absurd (cc h)
Decided-complete diff processing key u e d m removed out h =
    subst (λ (x : Output). is_complete x.action ≡ true) (some-injective _ out h) refl
Decided-complete diff processing key u e d m (written_as s a q) out h =
    subst (λ (x : Output). is_complete x.action ≡ true) (some-injective _ out h) (ground arith)

outputs_of_complete :
    (f : Text → Option Output)
    → ((k : Text) (out : Output) → f k ≡ some out → is_complete out.action ≡ true)
    → (ks : List Text) → all is_complete (actions_of (outputs_of f ks)) ≡ true
outputs_of_complete f h [] = refl
outputs_of_complete f h (k ∷ ks) = one (f k) refl (outputs_of_complete f h ks)
  where
    one :
        (o : Option Output)
        → f k ≡ o
        → all is_complete (actions_of (outputs_of f ks)) ≡ true
        → all is_complete (actions_of (keep_output k o (outputs_of f ks))) ≡ true
    one none e rest = rest
    one (some out) e rest = rw (h k out e, rest) refl

module _ (P : Primitives) (diff : Diff) (handler : DocumentHandler) (Q : Fake → Type 0) (R : Type 0)
    (tame : IsTame handler.handle Q R) where
  -- A world whose deployment has the property, after a cycle that raises only where `R` holds.
  abbrev pub CycleKeeps : Result (Unit {0}) × World → Type 0
  CycleKeeps r = EndsAs (λ _ w. Q w.fake) (λ w. Q w.fake × R) r

  apply_actions_tame :
      (actions : List DocumentAction) (s : Fake)
      → all is_complete actions ≡ true
      → Q s
      → EndsAs (λ _. Q) (Broken P handler.handle Q R tame) (apply_actions P diff handler actions s)
  unfolding apply_actions apply
  apply_actions_tame [] s h q = q
  apply_actions_tame (a ∷ actions) s h q =
      let (b, e) = collect_returns (a ∷ actions) empty_batch h in
      subst
        (λ r.
          EndsAs {A = Unit {0}} (λ _. Q) (Broken P handler.handle Q R tame)
            (elim r [
              | err x ↦ (err x, s)
              | ok b ↦
                  with_lock (fake_runtime P) handler.handle
                    (run_phases (fake_runtime P) handler.handle handler.profile (settle b)) s
            ]))
        (sym e) (with_lock_tame P handler.handle Q R tame handler.profile (settle b) s q)

  finish_cycle_tame :
      (commits : Bool) (outputs : List (Text × Output)) (w : World)
      → all is_complete (actions_of outputs) ≡ true
      → Q w.fake
      → CycleKeeps (finish_cycle P diff handler commits outputs w)
  unfolding finish_cycle
  finish_cycle_tame commits outputs w h q =
      go (apply_actions P diff handler (actions_of outputs) w.fake).0
        (apply_actions P diff handler (actions_of outputs) w.fake).1
        (apply_actions_tame (actions_of outputs) w.fake h q)
    where
      go :
          (r : Result (Unit {0})) (s : Fake)
          → Ends (λ _. Q) (Broken P handler.handle Q R tame) r s
          → CycleKeeps (elim r [
            | err x ↦ (err x, record { tracking = precommit outputs w.tracking; fake = s })
            | ok _ ↦ (
              ok tt,
              record {
                tracking =
                    if commits
                    then commit outputs (precommit outputs w.tracking)
                    else precommit outputs w.tracking;
                fake = s;
              },
            )
          ])
      go (err x) s q = q
      go (ok x) s q = q

module _ (P : Primitives) (profile_of : Text → CognifyProfile) (handler : DocumentHandler)
    (diff : Diff) (law : IsDiff diff) (apart : NamesApart P)
    (mine : handler.profile ≡ profile_of handler.processing_fingerprint) (declared : Declared)
    (ready : IsDeclared P profile_of handler declared) (w : World)
    (sound : IsSound P profile_of handler w) where
  cycle_tame :
      (Q : Fake → Type 0) (R : Type 0) (tame : IsTame handler.handle Q R) (commits : Bool)
      → Q w.fake
      → CycleKeeps P diff handler Q R tame (cycle P diff handler commits declared w)
  unfolding cycle
  cycle_tame Q R tame commits q =
      subst
        (λ r. CycleKeeps P diff handler Q R tame (elim r [
          | err x ↦ (err x, w)
          | ok outputs ↦ finish_cycle P diff handler commits outputs w
        ]))
        (sym (
          reconcile_round-outputs_of P handler diff declared w.tracking (λ k s h. (ready k s h).0)
            sound.known))
        (finish_cycle_tame P diff handler Q R tame commits
          (outs P profile_of handler diff law apart mine declared ready w sound) w
          (outputs_of_complete
            (chosen P profile_of handler diff law apart mine declared ready w sound)
            (λ k. Decided-complete diff handler.processing_fingerprint k _ _ _ _ (
              chosen-Decided P profile_of diff handler apart declared w.tracking
                (λ j s h. (ready j s h).1) _ sound.fits k))
            (round_keys declared w.tracking))
          q)

  -- If the world is sound, no fault is scripted, the emulator has the handle's identity scope, the
  -- diff behaves as documented, UUID5 tells different names apart, the handler's profile is that of
  -- its processing fingerprint, every declared key is normalized and has an identity, and the
  -- declared states have the fingerprints of their fields, then a cycle returns, whether it commits
  -- or not, and no fault is scripted after it.
  pub cycle_returns :
      (commits : Bool)
      → IsCalm handler.handle w.fake
      → ((cycle P diff handler commits declared w).0 ≡ ok tt)
        × IsCalm handler.handle (cycle P diff handler commits declared w).1.fake
  cycle_returns commits calm =
      go (cycle P diff handler commits declared w).0 (cycle P diff handler commits declared w).1
        (cycle_tame (IsCalm handler.handle) ⊥ (IsTame-IsCalm handler.handle) commits calm)
    where
      go :
          (r : Result (Unit {0})) (v : World)
          → Ends (λ _ v. IsCalm handler.handle v.fake) (λ v. IsCalm handler.handle v.fake × ⊥) r v
          → (r ≡ ok tt) × IsCalm handler.handle v.fake
      go (ok tt) v q = (refl, q)
      go (err e) v (q, never) = absurd never

  -- A cycle that returns or raises leaves the emulator's identity scope.
  pub cycle-IsScoped :
      (commits : Bool)
      → IsScoped handler.handle w.fake
      → IsScoped handler.handle (cycle P diff handler commits declared w).1.fake
  cycle-IsScoped commits scoped =
      go (cycle P diff handler commits declared w).0 (cycle P diff handler commits declared w).1 (
        cycle_tame (IsScoped handler.handle) (Unit {0}) (IsTame-IsScoped handler.handle) commits
          scoped)
    where
      go :
          (r : Result (Unit {0})) (v : World)
          → Ends
              (λ _ v. IsScoped handler.handle v.fake)
              (λ v. IsScoped handler.handle v.fake × Unit {0})
              r
              v
          → IsScoped handler.handle v.fake
      go (ok x) v q = q
      go (err e) v (q, done) = q
