-- ===== src/Local/Session/Refused.antt =====
-- A handle that is not the runtime's is refused before anything is done.
use cogindex.Base.{
  List, Bool, Option, none, some, Text, list_eq, nat_eq, pair_eq, option_eq, ◌==◌, not, ◌≡◌, ◌≢◌,
  refl, sym, ap, ◌∙◌, Result, ok, err, PyError, runtime_error, value_error, refuse, Bool-cases, inl,
  inr, ==_sound,
}
use cogindex.Base.Exec.{Exec, continue}
use cogindex.Identity.{Uuid}
use cogindex.Runtime.{DatasetHandle, DocumentPayload}
use cogindex.Spec.Profile.{CognifyProfile}
use cogindex.Local.Checks.{validate_dataset_name, validate_tenant, supported_tenant}
use cogindex.Local.Groups.{GroupKey}
use cogindex.Local.Sdk.{Cognee}
use cogindex.Local.Binding.{Local, check_scope, assert_storage_roots, local_validate}
use cogindex.Local.Operations.{
  local_add, local_cognify, forget_documents, local_teardown, local_list, local_acquire,
}

module _ {S : Type 0} (sdk : Cognee S) (h : DatasetHandle) (l : Local S) where
  -- The handle has a name that Cognee cannot hold, another tenant, or another scope than the
  -- runtime's, or the runtime has not resolved a dataset, or the storage roots have been changed.
  pub data IsForeign : Type 0 where
    bad_name : validate_dataset_name h.name ≡ err value_error → IsForeign
    bad_tenant : h.tenant ≢ supported_tenant → IsForeign
    unresolved : l.resolved_identity_scope ≡ none → IsForeign
    other_scope : l.resolved_identity_scope ≢ some h.identity_scope → IsForeign
    other_roots : sdk.storage_roots l.sdk ≢ some l.roots → IsForeign

  abbrev pub Refused : {A : Type 0} → Result A × Local S → Type 0
  Refused r = (e : PyError) × (r ≡ (err e, l))

  pub continue-Refused :
      {A B : Type 0} (r : Result A × Local S) (f : A → Exec (Local S) B)
      → Refused r
      → Refused (continue r.0 f r.1)
  continue-Refused r f (e, q) = (e, rw q refl)

  roots-Refused : sdk.storage_roots l.sdk ≢ some l.roots → Refused (assert_storage_roots sdk l)
  unfolding assert_storage_roots
  roots-Refused n = elim (Bool-cases (sdk.storage_roots l.sdk == some l.roots)) [
    | inl q ↦ absurd (n (==_sound (sdk.storage_roots l.sdk) (some l.roots) q))
    | inr q ↦ (runtime_error, rw q refl)
  ]

  scope-Refused :
      l.resolved_identity_scope ≢ some h.identity_scope → Refused (check_scope {S = S} h l)
  unfolding check_scope
  scope-Refused n = go l.resolved_identity_scope n
    where
      go :
          (o : Option Text)
          → o ≢ some h.identity_scope
          → Refused {A = Unit {0}} (elim o [
            | none ↦ (err runtime_error, l)
            | some b ↦ (refuse (not (h.identity_scope == b)) value_error, l)
          ])
      go none n = (runtime_error, refl)
      go (some b) n = elim (Bool-cases (h.identity_scope == b)) [
        | inl q ↦ absurd (n (ap some (sym (==_sound h.identity_scope b q))))
        | inr q ↦ (value_error, rw q refl)
      ]

  then-Refused :
      {A : Type 0} (r : Result (Unit {0})) (rest : Exec (Local S) A)
      → Refused (rest l)
      → Refused (continue r (λ _. rest) l)
  then-Refused (ok done) rest f = f
  then-Refused (err e) rest f = (e, refl)

  -- The check of the scope leaves the state as it is.
  after_scope :
      Refused (assert_storage_roots sdk l)
      → Refused (
          continue
            (check_scope {S = S} h l).0
            (λ _. assert_storage_roots sdk)
            (check_scope {S = S} h l).1)
  unfolding check_scope
  after_scope f = go l.resolved_identity_scope
    where
      go :
          (o : Option Text)
          → (let r : Result (Unit {0}) × Local S = elim o [
            | none ↦ (err runtime_error, l)
            | some b ↦ (refuse (not (h.identity_scope == b)) value_error, l)
          ] in
              Refused (continue r.0 (λ _. assert_storage_roots sdk) r.1))
      go none = (runtime_error, refl)
      go (some b) = then-Refused (refuse (not (h.identity_scope == b)) value_error) _ f

  tenant_refused : h.tenant ≢ supported_tenant → validate_tenant h.tenant ≡ err value_error
  unfolding validate_tenant
  tenant_refused n = elim (Bool-cases (h.tenant == supported_tenant)) [
    | inl q ↦ absurd (n (==_sound h.tenant supported_tenant q))
    | inr q ↦ rw q refl
  ]

  abbrev from_scope : Exec (Local S) (Unit {0})
  from_scope s =
      continue (check_scope {S = S} h s).0 (λ _. assert_storage_roots sdk)
        (check_scope {S = S} h s).1

  abbrev from_tenant : Exec (Local S) (Unit {0})
  from_tenant = continue (validate_tenant h.tenant) (λ _. from_scope)

  from_scope-Refused :
      Refused (from_scope l)
      → Refused (continue (validate_dataset_name h.name) (λ _. from_tenant) l)
  from_scope-Refused r =
      then-Refused (validate_dataset_name h.name) from_tenant
        (then-Refused (validate_tenant h.tenant) from_scope r)

  from_tenant-Refused :
      validate_tenant h.tenant ≡ err value_error
      → Refused (continue (validate_dataset_name h.name) (λ _. from_tenant) l)
  from_tenant-Refused e =
      then-Refused (validate_dataset_name h.name) from_tenant (value_error, rw e refl)

  validate-Refused : IsForeign → Refused (local_validate sdk h l)
  unfolding local_validate
  validate-Refused (bad_name e) = (value_error, rw e refl)
  validate-Refused (bad_tenant n) = from_tenant-Refused (tenant_refused n)
  validate-Refused (unresolved u) = from_scope-Refused (
      continue-Refused (check_scope {S = S} h l) (λ _. assert_storage_roots sdk)
        (scope-Refused (λ e. cc (sym u ∙ e))))
  validate-Refused (other_scope n) =
      from_scope-Refused (
        continue-Refused (check_scope {S = S} h l) (λ _. assert_storage_roots sdk)
          (scope-Refused n))
  validate-Refused (other_roots n) = from_scope-Refused (after_scope (roots-Refused n))

  -- If a handle's name is empty or has a NUL character, its tenant is not "default", its scope is
  -- not the one that the runtime is bound to, the runtime is bound to none, or Cognee's storage
  -- roots are no longer the runtime's, then each method of the handle raises, and neither the
  -- runtime nor Cognee has changed.
  pub methods-Refused :
      IsForeign
      → (repr_leb : GroupKey → GroupKey → Bool) (payloads : List DocumentPayload)
        (memory_only : Bool) (ids : List Uuid) (profile : CognifyProfile)
      → Refused (local_add sdk repr_leb h payloads l)
        × Refused (forget_documents sdk memory_only h ids l)
        × Refused (local_cognify sdk h profile l)
        × Refused (local_teardown sdk h l)
        × Refused (local_list sdk h l)
        × Refused (local_acquire sdk h l)
  unfolding local_add forget_documents local_cognify local_teardown local_list local_acquire
  methods-Refused f repr_leb payloads memory_only ids profile =
      let r = validate-Refused f in
      (
        continue-Refused (local_validate sdk h l) _ r,
        continue-Refused (local_validate sdk h l) _ r,
        continue-Refused (local_validate sdk h l) _ r,
        continue-Refused (local_validate sdk h l) _ r,
        continue-Refused (local_validate sdk h l) _ r,
        continue-Refused (local_validate sdk h l) _ r,
      )
