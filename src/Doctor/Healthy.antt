-- ===== src/Doctor/Healthy.antt =====
-- What an environment is like when the report of src/cogindex/_doctor.py is ok.
use cogindex.Base.{
  ℕ, List, [], ◌∷◌, ◌++◌, Bool, true, false, Option, none, some, Text, all, is_some, ◌≡◌, ◌≢◌, refl,
  Result, ok, err, if◌then◌else◌, Bool-cases, inl, inr, arith, type_error, value_error,
  runtime_error, compatibility_error, pipeline_error, lock_timeout, timeout_error, injected_fault,
  foreign, >>=-eq-ok, ok-injective, ap, ◌∙◌,
}
use cogindex.Compat.Dimensions.{validate_embedding_dimensions}
use cogindex.Doctor.{
  Finding, finding, critical, Check, not_critical, report_is_ok, check_returns, check_cocoindex,
  check_cognee_compat, check_embedding_dimensions, findings_of, is_packaged, check_root,
  check_storage_roots, check_credential, check_credentials, Environment, roots_of, credentials_of,
  doctor, cognee_compat, storage_roots, llm_credentials, embedding_credentials,
  embedding_dimensions,
}

-- What each check asks for
unfoldable pub IsOutside : Result (Text × Text) → Type 0
IsOutside (err e) = ⊥
IsOutside (ok (data_root, system_root)) =
    (is_packaged data_root ≡ false) × (is_packaged system_root ≡ false)

unfoldable pub IsHealthy : Environment → Bool → Type 0
unfolding IsOutside
IsHealthy env with_credentials =
    (is_some env.cocoindex_version ≡ true)
    × ((version : Text) × (env.load ≡ ok version))
    × IsOutside env.get_base_config
    × ((n : ℕ) × (validate_embedding_dimensions env.ambient ≡ ok n))
    × (with_credentials ≡ true
        → ((credentials_of env).0 ≢ some false) × ((credentials_of env).1 ≢ some false))

all_first :
    (f : Finding) (rest : List Finding)
    → all not_critical (f ∷ rest) ≡ true
    → (not_critical f ≡ true) × (all not_critical rest ≡ true)
all_first f rest h = ground arith

returned {ℓ} :
    {A : Type ℓ} (check : Check) (r : Result A) {f : Finding}
    → check_returns check r ≡ ok f
    → not_critical f ≡ true
    → (a : A) × (r ≡ ok a)
unfolding not_critical check_returns
returned check (ok a) e h = (a, refl)
returned check (err compatibility_error) e h = cc
returned check (err type_error) e h = cc
returned check (err value_error) e h = cc
returned check (err runtime_error) e h = cc
returned check (err pipeline_error) e h = cc
returned check (err lock_timeout) e h = cc
returned check (err timeout_error) e h = cc
returned check (err injected_fault) e h = cc
returned check (err (foreign n)) e h = cc

installed :
    (version : Option Text) → not_critical (check_cocoindex version) ≡ true → is_some version ≡ true
unfolding not_critical check_cocoindex
installed (some v) h = refl
installed none h = cc

outside_of :
    (path : Text)
    → is_packaged path ≡ true
    → not_critical (check_root path) ≡ true
    → is_packaged path ≡ false
unfolding not_critical check_root
outside_of path packaged = rw (packaged) λ h. cc

outside : (path : Text) → not_critical (check_root path) ≡ true → is_packaged path ≡ false
unfolding not_critical check_root
outside path h = elim (Bool-cases (is_packaged path)) [
  | inl packaged ↦ outside_of path packaged h
  | inr free ↦ free
]

absurd_of {ℓ} :
    {A : Type ℓ} (rest : List Finding)
    → all not_critical (finding critical storage_roots ∷ rest) ≡ true
    → A
unfolding not_critical
absurd_of rest h = cc

roots-IsOutside :
    (roots : Result (Text × Text)) (rest : List Finding)
    → all not_critical (check_storage_roots (roots_of roots) ++ rest) ≡ true
    → IsOutside roots × (all not_critical rest ≡ true)
unfolding roots_of check_storage_roots IsOutside
roots-IsOutside (err e) rest h = absurd_of rest h
roots-IsOutside (ok (data_root, system_root)) rest h =
    let first = all_first (check_root data_root) (check_root system_root ∷ rest) h in
    let second = all_first (check_root system_root) rest first.1 in
    ((outside data_root first.0, outside system_root second.0), second.1)

usable :
    (check : Check) (state : Option Bool)
    → not_critical (check_credential check state) ≡ true
    → state ≢ some false
unfolding not_critical check_credential
usable check none h = λ e. cc
usable check (some true) h = λ e. cc
usable check (some false) h = cc

credentials_lem :
    (state : Option Bool × Option Bool)
    → all not_critical (check_credentials state) ≡ true
    → (state.0 ≢ some false) × (state.1 ≢ some false)
unfolding check_credentials
credentials_lem (llm_ok, embedding_ok) h =
    let first =
      all_first (check_credential llm_credentials llm_ok)
        (check_credential embedding_credentials embedding_ok ∷ []) h in
    let second = all_first (check_credential embedding_credentials embedding_ok) [] first.1 in
    (usable llm_credentials llm_ok first.0, usable embedding_credentials embedding_ok second.0)

asked :
    (with_credentials : Bool) (state : Option Bool × Option Bool)
    → all not_critical (if with_credentials then check_credentials state else []) ≡ true
    → with_credentials ≡ true
    → (state.0 ≢ some false) × (state.1 ≢ some false)
asked true state h e = credentials_lem state h
asked false state h e = cc

findings-IsHealthy :
    (env : Environment) (with_credentials : Bool) {compat width : Finding}
    → check_cognee_compat env.load ≡ ok compat
    → check_embedding_dimensions env.ambient ≡ ok width
    → report_is_ok (findings_of env with_credentials compat width) ≡ true
    → IsHealthy env with_credentials
unfolding IsHealthy report_is_ok findings_of check_cognee_compat check_embedding_dimensions
findings-IsHealthy env with_credentials {compat} {width} is_loaded has_width h =
    let asks = if with_credentials then check_credentials (credentials_of env) else [] in
    let roots = check_storage_roots (roots_of env.get_base_config) in
    let one =
      all_first (check_cocoindex env.cocoindex_version) (compat ∷ (roots ++ (width ∷ asks))) h in
    let two = all_first compat (roots ++ (width ∷ asks)) one.1 in
    let three = roots-IsOutside env.get_base_config (width ∷ asks) two.1 in
    let four = all_first width asks three.1 in
    (
      installed env.cocoindex_version one.0,
      returned cognee_compat env.load is_loaded two.0,
      three.0,
      returned embedding_dimensions (validate_embedding_dimensions env.ambient) has_width four.0,
      asked with_credentials (credentials_of env) four.1,
    )

pub ok-IsHealthy :
    (env : Environment) (with_credentials : Bool) (findings : List Finding)
    → doctor env with_credentials ≡ ok findings
    → report_is_ok findings ≡ true
    → IsHealthy env with_credentials
unfolding doctor
ok-IsHealthy env with_credentials findings run h =
    let (compat, loaded, h1) = >>=-eq-ok (check_cognee_compat env.load) _ run in
    let (width, has_width, h2) = >>=-eq-ok (check_embedding_dimensions env.ambient) _ h1 in
    let same = ok-injective (findings_of env with_credentials compat width) findings h2 in
    findings-IsHealthy env with_credentials loaded has_width (ap report_is_ok same ∙ h)
