-- ===== src/Engine/Machine/Invariant.antt =====
-- The invariant of the machine: its world is sound, its declarations are good, no fault is left.
use cogindex.Base.{
  ℕ, List, [], ◌∷◌, true, false, Option, none, some, Text, list_eq, nat_eq, ◌==◌, ==_sound, ◌≡◌,
  refl, sym, ◌∙◌, arith, injected_fault, Bool-cases, inl, inr,
}
use mathlib.Core.Path.{subst}
use mathlib.Core.Option
use mathlib.Core.Option.{some-injective}
use cogindex.Base.Dict
use cogindex.Base.Dict.{get-put, get-pop}
use cogindex.Identity.{Primitives, Uuid}
use cogindex.Spec.Profile.{CognifyProfile}
use cogindex.Spec.Document.{CogneeDocumentSpec}
use cogindex.Target.Reconcile.{DocumentHandler}
use cogindex.Testing.Documents.{FakeDocument}
use cogindex.Testing.Faults.{FaultOp, Fake, inject_fault, clear_faults}
use cogindex.Testing.Effects.Pointwise.{doc_at}
use cogindex.Testing.Effects.Tame.{IsScoped, IsCalm}
use cogindex.Engine.Entry.{TrackEntry, missing}
use cogindex.Engine.Entry.Holds.{Tracks, IsSpec}
use cogindex.Engine.Round.{World, Declared, Tracking, invalidate_lossy}
use cogindex.Engine.Sync.Site.{IsKey, id_at}
use cogindex.Engine.Sync.Sound.{IsSound, IsDeclared}
use cogindex.Engine.Machine.{Machine, Rule, handler_at}

abbrev lossy : TrackEntry → TrackEntry
lossy e = record e { may_be_missing = true }

get-invalidate :
    (k : Text) (t : Tracking) → Dict.get k (invalidate_lossy t) ≡ Option.map lossy (Dict.get k t)
unfolding invalidate_lossy Dict.get
get-invalidate k [] = refl
get-invalidate k ((j, e) ∷ t) = elim (Bool-cases (k == j)) [
  | inl q ↦ rw q refl
  | inr q ↦ rw q (get-invalidate k t)
]

module _ (P : Primitives) (profile_of : Text → CognifyProfile) (base : DocumentHandler) where
  Tracks-lossy :
      (u : Uuid) (o : Option TrackEntry) (d : Option FakeDocument)
      → Tracks P profile_of u o d
      → Tracks P profile_of u (Option.map lossy o) d
  unfolding missing
  Tracks-lossy u none d t = t
  Tracks-lossy u (some e) d t = record {
    nonempty = t.nonempty;
    ids = t.ids;
    weighed = t.weighed;
    settled = λ r m a. absurd (cc m);
  }

  pub invalidate-IsSound :
      (w : World)
      → IsSound P profile_of base w
      → IsSound P profile_of base (record w { tracking = invalidate_lossy w.tracking })
  invalidate-IsSound w s = record {
    known = λ k e h. known k (Dict.get k w.tracking) refl e (sym (get-invalidate k w.tracking) ∙ h);
    fits = record {
      tracks = λ k.
          rw get-invalidate
            (Tracks-lossy (id_at P base k) (Dict.get k w.tracking) _ (s.fits.tracks k));
      owned = s.fits.owned;
    };
  }
    where
      known :
          (k : Text) (o : Option TrackEntry)
          → Dict.get k w.tracking ≡ o
          → (e : TrackEntry) → Option.map lossy o ≡ some e
          → IsKey P base k
      known k none q e h = absurd (cc h)
      known k (some x) q e h = s.known k x q

  -- A change of the deployment that changes no document
  pub refaked :
      (w : World) (s : Fake)
      → ((u : Uuid) → doc_at base.handle s u ≡ doc_at base.handle w.fake u)
      → IsSound P profile_of base w
      → IsSound P profile_of base (record w { fake = s })
  refaked w s same sound = record {
    known = sound.known;
    fits = record {
      tracks = λ k. rw (same (id_at P base k)) (sound.fits.tracks k);
      owned = λ u d e. sound.fits.owned u d (sym (same u) ∙ e);
    };
  }

  pub inject_same :
      (op : FaultOp) (after : Option ℕ) (s : Fake) (u : Uuid)
      → doc_at base.handle (inject_fault op 1 after false injected_fault s).1 u
        ≡ doc_at base.handle s u
  unfolding doc_at inject_fault
  inject_same op after s u = ground arith

  pub inject-IsScoped :
      (op : FaultOp) (after : Option ℕ) (s : Fake)
      → IsScoped base.handle s
      → IsScoped base.handle (inject_fault op 1 after false injected_fault s).1
  unfolding inject_fault
  inject-IsScoped op after s h = ground arith

  pub clear_same :
      (s : Fake) (u : Uuid) → doc_at base.handle (clear_faults s) u ≡ doc_at base.handle s u
  unfolding doc_at clear_faults
  clear_same s u = refl

  pub clear-IsCalm : (s : Fake) → IsScoped base.handle s → IsCalm base.handle (clear_faults s)
  unfolding clear_faults Dict.get
  clear-IsCalm s h = record { scoped = h; quiet = λ op. refl }

  -- What the machine holds between two rules
  pub record IsGood (m : Machine) : Type 0 where
    pub sound : IsSound P profile_of base m.world
    pub ready : IsDeclared P profile_of base m.declared
    pub calm : IsCalm base.handle m.world.fake

  -- The machine declares constructed documents under normalized keys.
  abbrev pub IsAllowed : Rule → Type 0
  IsAllowed (Rule.declare key spec) = IsKey P base key × IsSpec P spec
  IsAllowed (Rule.undeclare key) = Unit
  IsAllowed (Rule.change_config fp) = Unit
  IsAllowed Rule.sync_ok = Unit
  IsAllowed (Rule.sync_crash_mid_batch op after) = Unit
  IsAllowed Rule.sync_crash_before_apply = Unit
  IsAllowed Rule.sync_exit_after_apply = Unit

  abbrev pub AreAllowed : List Rule → Type 0
  AreAllowed [] = Unit
  AreAllowed (r ∷ rules) = IsAllowed r × AreAllowed rules

  pub ready-put :
      (key : Text) (spec : CogneeDocumentSpec) (d : Declared)
      → IsKey P base key × IsSpec P spec
      → IsDeclared P profile_of base d
      → IsDeclared P profile_of base (Dict.put key spec d)
  ready-put key spec d (named, built) ready k s h = elim (Bool-cases (k == key)) [
    | inl q ↦
        let same : some spec ≡ some s = rw q at (sym (get-put key k spec d) ∙ h) in
        (rw (==_sound k key q) named, subst (IsSpec P) (some-injective spec s same) built)
    | inr q ↦ ready k s (rw q at (sym (get-put key k spec d) ∙ h))
  ]

  pub ready-pop :
      (key : Text) (d : Declared)
      → IsDeclared P profile_of base d
      → IsDeclared P profile_of base (Dict.pop key d)
  ready-pop key d ready k s h = elim (Bool-cases (k == key)) [
    | inl q ↦ absurd (cc (rw q at (sym (get-pop key k d) ∙ h)))
    | inr q ↦ ready k s (rw q at (sym (get-pop key k d) ∙ h))
  ]

  -- The handlers of the configurations have the same identities.
  pub at_config :
      (fp : Text) (w : World)
      → IsSound P profile_of base w
      → IsSound P profile_of (handler_at profile_of base fp) w
  at_config fp w s = record { known = s.known; fits = s.fits }

  pub from_config :
      (fp : Text) (w : World)
      → IsSound P profile_of (handler_at profile_of base fp) w
      → IsSound P profile_of base w
  from_config fp w s = record { known = s.known; fits = s.fits }
