-- ===== src/Testing/Effects/Tame.antt =====
-- What every operation of the emulator keeps of the rest of its state: its identity scope and its
-- scripted faults.
use cogindex.Base.{
  ℕ, suc, List, [], ◌∷◌, Bool, true, false, Option, none, some, list_eq, nat_eq, pair_eq, ◌==◌, ◌≡◌,
  refl, sym, ◌∙◌, Text, PyError, Result, ok, err, Bool-cases, inl, inr,
}
use cogindex.Base.Dict
use cogindex.Base.Dict.{Dict, get-put}
use cogindex.Identity.{Primitives, Uuid}
use cogindex.Runtime.{DatasetHandle, DocumentPayload}
use cogindex.Spec.Profile.{CognifyProfile}
use cogindex.Target.Apply.{
  Batch, delete_phase, purge_phase, add_phase, cognify_phase, run_phases, leave, with_lock,
}
use cogindex.Target.Reconcile.{ordered}
use cogindex.Testing.Documents.{FakeDataset, Documents, add_loop}
use cogindex.Testing.Faults.{
  Fake, Fault, FaultOp, CallOp, fault_op_eq, purge_document_memory, delete_documents, add_documents,
  cognify_dataset, dataset_lock, called, lock_acquire, lock_release, fire, next_fault, log_call,
  raise_fault, scripts_of, use_fault,
}
use cogindex.Testing.Fake.{
  fake_runtime, find_dataset, change_documents, validate_handle, fake_purge, fake_delete,
  finish_delete, fake_acquire, fake_release, fake_add, add_checked, finish_add, add_result,
  store_added, stop_at, ensure_dataset, fake_cognify,
}
use cogindex.Testing.Effects.Outcome.{Ends, EndsAs, Ends-continue}

-- A property `Q` of the scope and the faults, where raising for one of the faults needs `R`.
pub record IsTame (h : DatasetHandle) (Q : Fake → Type 0) (R : Type 0) : Type 0 where
  pub valid : (s : Fake) → Q s → (h.identity_scope == s.identity_scope) ≡ true
  pub logged :
      (op : CallOp) (name : Text) (detail : List Text) (s : Fake)
      → Q s
      → Q (log_call op name detail s)
  pub stored : (d : Dict (Text × Text) FakeDataset) (s : Fake) → Q s → Q (record s { datasets = d })
  pub faulted : (op : FaultOp) (s : Fake) → Q s → Q (next_fault op s).1
  pub raises : (op : FaultOp) (s : Fake) (f : Fault) → Q s → (next_fault op s).0 ≡ some f → R

module _ (P : Primitives) (h : DatasetHandle) (Q : Fake → Type 0) (R : Type 0)
    (tame : IsTame h Q R) where
  abbrev pub Broken : Fake → Type 0
  Broken s = Q s × R

  abbrev Same : {A : Type 0} → A → Fake → Type 0
  Same a s = Q s

  -- The handles that a batch uses differ at most in the dataset's identity.
  abbrev Reached : DatasetHandle → Fake → Type 0
  Reached h' s = (h'.identity_scope ≡ h.identity_scope) × Q s

  validate_tame :
      (h' : DatasetHandle) (s : Fake)
      → h'.identity_scope ≡ h.identity_scope
      → Q s
      → EndsAs {A = Unit {0}} Same Broken (validate_handle h' s)
  unfolding validate_handle
  validate_tame h' s same q = rw (same, tame.valid s q) q

  raise_tame :
      (op : FaultOp) (s : Fake) (f : Option Fault) (t : Fake)
      → (next_fault op s).0 ≡ f
      → Q s
      → Q t
      → EndsAs Same Broken (raise_fault f t)
  raise_tame op s none t e q r = r
  raise_tame op s (some f) t e q r = (r, tame.raises op s f q e)

  fire_tame : (op : FaultOp) (s : Fake) → Q s → EndsAs Same Broken (fire op s)
  unfolding fire
  fire_tame op s q =
      raise_tame op s (next_fault op s).0 (next_fault op s).1 refl q (tame.faulted op s q)

  change_tame :
      (change : Documents → Documents) (h' : DatasetHandle) (o : Option FakeDataset) (s : Fake)
      → Q s
      → Q (change_documents h' change o s)
  unfolding change_documents
  change_tame change h' none s q = q
  change_tame change h' (some ds) s q = tame.stored _ s q

  purge_tame : (ids : List Uuid) (s : Fake) → Q s → EndsAs Same Broken (fake_purge h ids s)
  unfolding fake_purge
  purge_tame ids s q = Ends-continue Same Broken _ _ _ _ (validate_tame h s refl q) λ _ t j.
      Ends-continue Same Broken _ _ _ _
        (fire_tame purge_document_memory _ (tame.logged (called purge_document_memory) _ _ t j))
        λ _ v k. change_tame _ h (find_dataset h v) v k

  finish_delete_tame :
      (f : Option Fault) (ids : List Uuid) (s : Fake)
      → Q s
      → ((x : Fault) → f ≡ some x → R)
      → EndsAs Same Broken (finish_delete f h ids s)
  unfolding finish_delete
  finish_delete_tame none ids s q r = change_tame _ h (find_dataset h s) s q
  finish_delete_tame (some f) ids s q r = elim (Bool-cases f.torn) [
    | inl torn ↦ rw torn (change_tame _ h (find_dataset h s) s q, r f refl)
    | inr whole ↦ rw whole (q, r f refl)
  ]

  delete_tame : (ids : List Uuid) (s : Fake) → Q s → EndsAs Same Broken (fake_delete h ids s)
  unfolding fake_delete
  delete_tame ids s q = Ends-continue Same Broken _ _ _ _ (validate_tame h s refl q) λ _ t j.
      let k = tame.logged (called delete_documents) h.name ids t j in
      finish_delete_tame _ ids _ (tame.faulted delete_documents _ k)
        (λ x e. tame.raises delete_documents _ x k e)

  add_loop_ends :
      (index : ℕ) (ps : List DocumentPayload) (docs : Documents) (applied : List Text)
      → (add_loop P none index ps docs applied).0 ≡ ok tt
  unfolding add_loop
  add_loop_ends index [] docs applied = refl
  add_loop_ends index (p ∷ ps) docs applied = add_loop_ends (suc index) ps _ _

  add_result_tame :
      (ds : FakeDataset) (outcome : Result (Unit {0})) (t : Fake)
      → Q t
      → ((e : PyError) → outcome ≡ err e → R)
      → EndsAs Reached Broken (add_result h ds outcome t)
  add_result_tame ds (ok x) t q r = (refl, q)
  add_result_tame ds (err e) t q r = (q, r e refl)

  finish_add_tame :
      (ps : List DocumentPayload) (f : Option Fault) (s : Fake)
      → Q s
      → ((x : Fault) → f ≡ some x → R)
      → EndsAs Reached Broken (finish_add P h ps f s)
  unfolding finish_add store_added
  finish_add_tame ps f s q r =
      add_result_tame (ensure_dataset P h (find_dataset h s)) _ _
        (tame.logged (called add_documents) h.name _ _ (tame.stored _ s q)) (outcome f r)
    where
      outcome :
          (f : Option Fault)
          → ((x : Fault) → f ≡ some x → R)
          → (e : PyError)
          → (add_loop P (stop_at f) 0 ps (ensure_dataset P h (find_dataset h s)).documents []).0
            ≡ err e
          → R
      outcome none r e m = absurd (cc (sym (add_loop_ends 0 ps _ _) ∙ m))
      outcome (some f) r e m = r f refl

  add_tame :
      (ps : List DocumentPayload) (s : Fake) → Q s → EndsAs Reached Broken (fake_add P h ps s)
  unfolding fake_add add_checked
  add_tame ps s q =
      Ends-continue Same Broken _ _ _ _ (validate_tame h s refl q) λ _ t j. checked ps t j
    where
      checked :
          (ps : List DocumentPayload) (t : Fake)
          → Q t
          → EndsAs Reached Broken (add_checked P h ps t)
      checked [] t j = (refl, j)
      checked (p ∷ ps) t j =
          finish_add_tame (p ∷ ps) _ _ (tame.faulted add_documents t j)
            (λ x e. tame.raises add_documents t x j e)

  cognify_tame :
      (h' : DatasetHandle) (profile : CognifyProfile) (s : Fake)
      → h'.identity_scope ≡ h.identity_scope
      → Q s
      → EndsAs Same Broken (fake_cognify P h' profile s)
  unfolding fake_cognify
  cognify_tame h' profile s same q =
      Ends-continue Same Broken _ _ _ _ (validate_tame h' s same q) λ _ t j.
        Ends-continue Same Broken _ _ _ _
          (fire_tame cognify_dataset _ (tame.logged (called cognify_dataset) _ _ t j))
          λ _ v k. change_tame _ h' (find_dataset h' v) v k

  acquire_tame : (s : Fake) → Q s → EndsAs Same Broken (fake_acquire h s)
  unfolding fake_acquire
  acquire_tame s q = Ends-continue Same Broken _ _ _ _ (validate_tame h s refl q) λ _ t j.
      Ends-continue Same Broken _ _ _ _ (fire_tame dataset_lock t j)
        λ _ v k. tame.logged lock_acquire h.name [] v k

  release_tame : (s : Fake) → Q s → Q (fake_release h s).1
  unfolding fake_release
  release_tame s q = tame.logged lock_release h.name [] s q

  module _ (profile : CognifyProfile) (b : Batch) where
    delete_phase_tame :
        (ids : List Uuid) (s : Fake)
        → Q s
        → EndsAs Same Broken (delete_phase (fake_runtime P) h ids s)
    unfolding delete_phase
    delete_phase_tame [] s q = q
    delete_phase_tame (u ∷ us) s q = delete_tame (ordered (u ∷ us)) s q

    purge_phase_tame :
        (ids : List Uuid) (s : Fake)
        → Q s
        → EndsAs Same Broken (purge_phase (fake_runtime P) h ids s)
    unfolding purge_phase
    purge_phase_tame [] s q = q
    purge_phase_tame (u ∷ us) s q = purge_tame (ordered (u ∷ us)) s q

    add_phase_tame :
        (d : Dict Uuid DocumentPayload) (s : Fake)
        → Q s
        → EndsAs Reached Broken (add_phase (fake_runtime P) h d s)
    unfolding add_phase
    add_phase_tame [] s q = (refl, q)
    add_phase_tame (x ∷ d) s q = add_tame _ s q

    cognify_phase_tame :
        (flag : Bool) (h' : DatasetHandle) (s : Fake)
        → Reached h' s
        → EndsAs Same Broken (cognify_phase (fake_runtime P) h' profile flag s)
    unfolding cognify_phase
    cognify_phase_tame false h' s (same, q) = q
    cognify_phase_tame true h' s (same, q) = cognify_tame h' profile s same q

    run_phases_tame :
        (s : Fake) → Q s → EndsAs Same Broken (run_phases (fake_runtime P) h profile b s)
    unfolding run_phases
    run_phases_tame s q =
        Ends-continue Same Broken _ _ _ _ (delete_phase_tame b.delete_ids s q) λ _ s1 q1.
          Ends-continue Same Broken _ _ _ _ (purge_phase_tame b.purge_ids s1 q1) λ _ s2 q2.
            Ends-continue Reached Broken _ _ _ _ (add_phase_tame b.payloads s2 q2)
              (cognify_phase_tame b.needs_cognify)

    leave_tame :
        (r : Result (Unit {0})) (s : Fake)
        → Ends Same Broken r s
        → EndsAs Same Broken (leave (fake_runtime P) h r s)
    unfolding fake_release
    leave_tame (ok a) s q = release_tame s q
    leave_tame (err e) s (q, r) = (release_tame s q, r)

    -- A batch keeps the property, and raises only for a fault.
    pub with_lock_tame :
        (s : Fake)
        → Q s
        → EndsAs {A = Unit {0}} Same Broken
            (with_lock (fake_runtime P) h (run_phases (fake_runtime P) h profile b) s)
    with_lock_tame s q = go (fake_acquire h s).0 (fake_acquire h s).1 (acquire_tame s q)
      where
        go :
            (r : Result (Unit {0})) (t : Fake)
            → Ends Same Broken r t
            → EndsAs {A = Unit {0}} Same Broken (elim r [
              | err e ↦ (err e, t)
              | ok _ ↦
                  let done = run_phases (fake_runtime P) h profile b t in
                  leave (fake_runtime P) h done.0 done.1
            ])
        go (err e) t j = j
        go (ok a) t j = leave_tame _ _ (run_phases_tame t j)

-- The handle is the emulator's.
abbrev pub IsScoped : DatasetHandle → Fake → Type 0
IsScoped h s = (h.identity_scope == s.identity_scope) ≡ true

pub IsTame-IsScoped : (h : DatasetHandle) → IsTame h (IsScoped h) (Unit {0})
unfolding log_call next_fault
IsTame-IsScoped h = record {
  valid = λ s q. q;
  logged = λ op name detail s q. q;
  stored = λ d s q. q;
  faulted = λ op s q. q;
  raises = λ op s f q e. tt;
}

-- The handle is the emulator's and no fault is scripted.
pub record IsCalm (h : DatasetHandle) (s : Fake) : Type 0 where
  pub scoped : IsScoped h s
  pub quiet : (op : FaultOp) → scripts_of (Dict.get op s.faults) ≡ []

pub IsTame-IsCalm : (h : DatasetHandle) → IsTame h (IsCalm h) ⊥
unfolding log_call next_fault use_fault
IsTame-IsCalm h = record {
  valid = λ s q. q.scoped;
  logged = λ op name detail s q. record { scoped = q.scoped; quiet = q.quiet };
  stored = λ d s q. record { scoped = q.scoped; quiet = q.quiet };
  faulted = λ op s q. record { scoped = q.scoped; quiet = left op s q };
  raises = λ op s f q e. absurd (cc (rw (q.quiet op) at e));
}
  where
    left :
        (op : FaultOp) (s : Fake)
        → IsCalm h s
        → (other : FaultOp) → scripts_of (Dict.get other (next_fault op s).1.faults) ≡ []
    left op s q other = rw (q.quiet op) (q.quiet other)
