-- ===== src/Doctor/Exact.antt =====
-- The environments whose report in src/cogindex/_doctor.py is ok.
use cogindex.Base.{
  List, [], ◌∷◌, ◌++◌, Bool, true, false, Option, none, some, Text, all, is_some, ◌≡◌, ◌≢◌, ◌↔◌,
  refl, Result, ok, err, if◌then◌else◌,
}
use cogindex.Doctor.{
  Finding, finding, fine, Check, not_critical, report_is_ok, check_returns, check_cocoindex,
  check_cognee_compat, check_embedding_dimensions, findings_of, is_packaged, check_root,
  check_storage_roots, check_credential, check_credentials, Environment, roots_of, credentials_of,
  doctor, cognee_compat, llm_credentials, embedding_credentials, embedding_dimensions,
}
use cogindex.Doctor.Healthy.{IsOutside, IsHealthy, ok-IsHealthy}

all_cons :
    (f : Finding) (rest : List Finding)
    → not_critical f ≡ true
    → all not_critical rest ≡ true
    → all not_critical (f ∷ rest) ≡ true
all_cons f rest here there = rw (here) there

returned_ok {ℓ} :
    {A : Type ℓ} (check : Check) {r : Result A} {a : A}
    → r ≡ ok a
    → check_returns check r ≡ ok (finding fine check)
unfolding check_returns
returned_ok check h = rw (h) refl

installed_ok :
    (version : Option Text) → is_some version ≡ true → not_critical (check_cocoindex version) ≡ true
unfolding not_critical check_cocoindex
installed_ok (some v) h = refl
installed_ok none h = cc

outside_ok : (path : Text) → is_packaged path ≡ false → not_critical (check_root path) ≡ true
unfolding not_critical check_root
outside_ok path free = rw (free) refl

usable_ok :
    (check : Check) (state : Option Bool)
    → state ≢ some false
    → not_critical (check_credential check state) ≡ true
unfolding not_critical check_credential
usable_ok check none h = refl
usable_ok check (some true) h = refl
usable_ok check (some false) h = absurd (h refl)

asked_ok :
    (with_credentials : Bool) (state : Option Bool × Option Bool)
    → (with_credentials ≡ true → (state.0 ≢ some false) × (state.1 ≢ some false))
    → all not_critical (if with_credentials then check_credentials state else []) ≡ true
unfolding check_credentials
asked_ok true (llm_ok, embedding_ok) h =
    let both = h refl in
    all_cons (check_credential llm_credentials llm_ok)
      (check_credential embedding_credentials embedding_ok ∷ [])
      (usable_ok llm_credentials llm_ok both.0)
      (all_cons (check_credential embedding_credentials embedding_ok) []
        (usable_ok embedding_credentials embedding_ok both.1) refl)
asked_ok false state h = refl

roots_ok :
    (roots : Result (Text × Text)) (rest : List Finding)
    → IsOutside roots
    → all not_critical rest ≡ true
    → all not_critical (check_storage_roots (roots_of roots) ++ rest) ≡ true
unfolding roots_of check_storage_roots IsOutside
roots_ok (err e) rest h there = absurd h
roots_ok (ok (data_root, system_root)) rest h there =
    all_cons (check_root data_root) (check_root system_root ∷ rest) (outside_ok data_root h.0)
      (all_cons (check_root system_root) rest (outside_ok system_root h.1) there)

healthy_ok :
    (env : Environment) (with_credentials : Bool)
    → IsHealthy env with_credentials
    → report_is_ok (
        findings_of env with_credentials
          (finding fine cognee_compat)
          (finding fine embedding_dimensions))
      ≡ true
unfolding IsHealthy report_is_ok findings_of not_critical
healthy_ok env with_credentials (there, loaded, outside_both, has_width, credentials) =
    let asks = if with_credentials then check_credentials (credentials_of env) else [] in
    let roots = check_storage_roots (roots_of env.get_base_config) in
    let width = finding fine embedding_dimensions in
    let compat = finding fine cognee_compat in
    all_cons (check_cocoindex env.cocoindex_version) (compat ∷ (roots ++ (width ∷ asks)))
      (installed_ok env.cocoindex_version there)
      (all_cons compat (roots ++ (width ∷ asks)) refl (
        roots_ok env.get_base_config (width ∷ asks) outside_both
          (all_cons width asks refl (asked_ok with_credentials (credentials_of env) credentials))))

doctor_returns :
    (env : Environment) (with_credentials : Bool)
    → IsHealthy env with_credentials
    → doctor env with_credentials
      ≡ ok (
          findings_of env with_credentials
            (finding fine cognee_compat)
            (finding fine embedding_dimensions))
unfolding IsHealthy doctor check_cognee_compat check_embedding_dimensions
doctor_returns env with_credentials
      (there, (version, loaded), outside_both, (n, has_width), credentials) =
    rw (returned_ok cognee_compat loaded, returned_ok embedding_dimensions has_width) refl

-- doctor returns a report that is ok exactly if cocoindex is installed, load returns, the storage
-- roots can be read and lie outside of site-packages, the embedding dimensions are verified, and,
-- where credentials are checked, neither kind is found to be missing.
pub doctor-IsHealthy :
    (env : Environment) (with_credentials : Bool)
    → ((findings : List Finding) × (doctor env with_credentials ≡ ok findings)
        × (report_is_ok findings ≡ true))
      ↔ IsHealthy env with_credentials
doctor-IsHealthy env with_credentials = (
  λ (findings, run, h). ok-IsHealthy env with_credentials findings run h,
  λ h. (
    findings_of env with_credentials (finding fine cognee_compat)
        (finding fine embedding_dimensions),
    doctor_returns env with_credentials h,
    healthy_ok env with_credentials h,
  ),
)
