-- ===== src/Engine/Batch.antt =====
-- What a batch does to every document of the emulator, whether it is applied or raises.
use mathlib.Core.Path.{subst}
use cogindex.Base.{
  List, [], ◌∷◌, Bool, true, false, Option, none, some, list_eq, nat_eq, ◌≡◌, refl, inl, inr, ◌∙◌,
  sym, ap, Result, ok, err,
}
use cogindex.Base.Dict
use cogindex.Base.Dict.{Dict}
use cogindex.Identity.{Primitives, Uuid}
use cogindex.Runtime.{DatasetHandle, DocumentPayload}
use cogindex.Spec.Profile.{CognifyProfile}
use cogindex.Target.Apply.{
  Batch, delete_phase, purge_phase, add_phase, cognify_phase, run_phases, leave, with_lock,
}
use cogindex.Target.Reconcile.{ordered}
use cogindex.Testing.Faults.{Fake}
use cogindex.Testing.Fake.{fake_runtime, fake_acquire, fake_release, find_dataset}
use cogindex.Testing.Effects.Adding.{Payloads, AreNamed, Partly}
use cogindex.Testing.Effects.Outcome.{Ends, EndsAs, Ends-continue, Ends-weaken}
use cogindex.Testing.Effects.Operations.{
  acquire-Ends, release-Ends, delete-Ends, purge-Ends, contains-ordered,
}
use cogindex.Testing.Effects.Pointwise.{
  View, doc_at, Is, deleted_at, torn_at, purged_at, added_at, added_from, cognified_at,
}
use cogindex.Testing.Effects.Writes.{PartlyAdded, AddReturned, add-Ends, cognify-Ends}

module _ (P : Primitives) (h : DatasetHandle) (g : View) (b : Batch) (profile : CognifyProfile)
    (Keeps : View → Type 0) where
  abbrev after_delete : View
  after_delete = deleted_at b.delete_ids g

  abbrev after_purge : View
  after_purge = purged_at b.purge_ids after_delete

  abbrev after_add : View
  after_add = added_at P b.payloads after_purge

  abbrev pub after_batch : View
  after_batch = cognified_at P b.needs_cognify profile after_add

  -- What the run knows after add_documents
  abbrev Settling : DatasetHandle → Fake → Type 0
  Settling h' s = (i : Option Uuid) × (h' ≡ record h { dataset_id = i }) × Is h after_add s

  same_view :
      (i : Option Uuid) (s : Fake) (u : Uuid)
      → doc_at (record h { dataset_id = i }) s u ≡ doc_at h s u
  unfolding doc_at find_dataset
  same_view i s u = refl

  all_added : PartlyAdded P b.payloads after_purge after_add
  all_added u = go (Dict.get u b.payloads) refl
    where
      go :
          (o : Option DocumentPayload)
          → Dict.get u b.payloads ≡ o
          → Partly P b.payloads u (after_purge u) (added_from P o (after_purge u))
      go none e = inl refl
      go (some p) e = inr (p, e, refl)

  -- The views that a batch may leave when it raises satisfy `Keeps`.
  pub record IsKept : Type 0 where
    pub named : AreNamed b.payloads
    pub before : Keeps g
    pub torn : Keeps (torn_at b.delete_ids g)
    pub deleted : Keeps after_delete
    pub purged : Keeps after_purge
    pub partly : (g' : View) → PartlyAdded P b.payloads after_purge g' → Keeps g'

  abbrev pub Raised : Fake → Type 0
  Raised s = (g' : View) × Keeps g' × Is h g' s

  module _ (k : IsKept) where
    delete_phase-Ends :
        (ids : List Uuid) (s : Fake)
        → ids ≡ b.delete_ids
        → Is h g s
        → EndsAs (λ _. Is h after_delete) Raised (delete_phase (fake_runtime P) h ids s)
    unfolding delete_phase
    delete_phase-Ends [] s e i = λ u. i u ∙ rw (← e)
    delete_phase-Ends (v ∷ vs) s e i =
        Ends-weaken (λ _. Is h (deleted_at (ordered (v ∷ vs)) g)) (λ _. Is h after_delete) _ Raised
          _ _ (delete-Ends h g (ordered (v ∷ vs)) s i)
          (λ _ j u. j u ∙ rw contains-ordered (ap (λ ids. deleted_at ids g u) e))
          (λ r. elim r [
            | inl j ↦ (g, k.before, j)
            | inr j ↦ (
              torn_at b.delete_ids g,
              k.torn,
              λ u. j u ∙ rw contains-ordered (ap (λ ids. torn_at ids g u) e),
            )
          ])

    purge_phase-Ends :
        (ids : List Uuid) (s : Fake)
        → ids ≡ b.purge_ids
        → Is h after_delete s
        → EndsAs (λ _. Is h after_purge) Raised (purge_phase (fake_runtime P) h ids s)
    unfolding purge_phase
    purge_phase-Ends [] s e i = λ u. i u ∙ rw (← e)
    purge_phase-Ends (v ∷ vs) s e i =
        Ends-weaken (λ _. Is h (purged_at (ordered (v ∷ vs)) after_delete)) (λ _. Is h after_purge)
          _ Raised _ _ (purge-Ends h after_delete (ordered (v ∷ vs)) s i)
          (λ _ j u. j u ∙ rw contains-ordered (ap (λ ids. purged_at ids after_delete u) e))
          (λ j. (after_delete, k.deleted, j))

    add_phase-Ends :
        (d : Payloads) (s : Fake)
        → d ≡ b.payloads
        → Is h after_purge s
        → EndsAs (λ h' t. Settling h' t) Raised (add_phase (fake_runtime P) h d s)
    unfolding add_phase
    add_phase-Ends [] s e i = (h.dataset_id, refl, λ u. i u ∙ rw (← e))
    add_phase-Ends (x ∷ d) s e i =
        Ends-weaken (AddReturned P h after_purge (x ∷ d) named) Settling _ Raised _ _
          (add-Ends P h after_purge (x ∷ d) named s i)
          (λ h' (j, same, done). (j, same, λ u. done u ∙ ap (λ p. added_at P p after_purge u) e))
          (λ (g', partly, j).
            (g', k.partly g' (subst (λ p. PartlyAdded P p after_purge g') e partly), j))
      where
        named : AreNamed (x ∷ d)
        named = subst AreNamed (sym e) k.named

    cognify_phase-Ends :
        (h' : DatasetHandle) (flag : Bool) (s : Fake)
        → flag ≡ b.needs_cognify
        → Settling h' s
        → EndsAs (λ _. Is h after_batch) Raised (cognify_phase (fake_runtime P) h' profile flag s)
    unfolding cognify_phase
    cognify_phase-Ends h' false s e (j, same, i) = λ u. i u ∙ rw (← e)
    cognify_phase-Ends h' true s e (j, same, i) =
        rw (same, ← e)
          (Ends-weaken
            (λ _. Is (record h { dataset_id = j }) (cognified_at P true profile after_add))
            (λ _. Is h (cognified_at P true profile after_add)) _ Raised _ _
            (cognify-Ends P (record h { dataset_id = j }) after_add profile s
              (λ u. same_view j s u ∙ i u))
            (λ _ l u. sym (same_view j _ u) ∙ l u)
            (λ l. (after_add, k.partly after_add all_added, λ u. sym (same_view j _ u) ∙ l u)))

    run_phases-Ends :
        (s : Fake)
        → Is h g s
        → EndsAs (λ _. Is h after_batch) Raised (run_phases (fake_runtime P) h profile b s)
    unfolding run_phases
    run_phases-Ends s i =
        Ends-continue (λ _. Is h after_delete) Raised _ _ _ _
          (delete_phase-Ends b.delete_ids s refl i)
          λ _ s1 i1.
            Ends-continue (λ _. Is h after_purge) Raised _ _ _ _
              (purge_phase-Ends b.purge_ids s1 refl i1)
              λ _ s2 i2.
                Ends-continue Settling Raised _ _ _ _ (add_phase-Ends b.payloads s2 refl i2)
                  λ h' s3 i3. cognify_phase-Ends h' b.needs_cognify s3 refl i3

    -- Leaving the lock changes no document and raises nothing.
    leave-Ends :
        (r : Result (Unit {0})) (s : Fake)
        → Ends (λ _. Is h after_batch) Raised r s
        → EndsAs (λ _. Is h after_batch) Raised (leave (fake_runtime P) h r s)
    unfolding fake_release
    leave-Ends (ok a) s i = release-Ends h after_batch s i
    leave-Ends (err e) s (g', kept, i) = (g', kept, release-Ends h g' s i)

    -- If the payloads of the batch stand under their own identities and `Keeps` holds of the view
    -- before the batch, of that view with the documents to delete torn, of the views after the
    -- deletions and after the purges, and of every view with some of the payloads added, then a
    -- batch that returns has deleted, purged, added and, if it is to, cognified, and one that
    -- raises has left a view that satisfies `Keeps`.
    pub with_lock-Ends :
        (s : Fake)
        → Is h g s
        → EndsAs {A = Unit {0}}
            (λ _. Is h after_batch)
            Raised
            (with_lock (fake_runtime P) h (run_phases (fake_runtime P) h profile b) s)
    with_lock-Ends s i = go (fake_acquire h s).0 (fake_acquire h s).1 (acquire-Ends h g s i)
      where
        go :
            (r : Result (Unit {0})) (t : Fake)
            → Ends (λ _. Is h g) (Is h g) r t
            → EndsAs {A = Unit {0}}
                (λ _. Is h after_batch)
                Raised
                (elim r [
                  | err e ↦ (err e, t)
                  | ok _ ↦
                      let done = run_phases (fake_runtime P) h profile b t in
                      leave (fake_runtime P) h done.0 done.1
                ])
        go (err e) t j = (g, k.before, j)
        go (ok a) t j = leave-Ends _ _ (run_phases-Ends t j)
