-- ===== src/Doctor.antt =====
-- src/cogindex/_doctor.py: the report on an environment. Findings are kept without their details
-- and hints, and `render` is left out.
pub mod Healthy
pub mod Exact
use cogindex.Base.{
  List, [], ◌∷◌, ◌++◌, Bool, true, false, ◌&&◌, ◌||◌, Option, none, some, Text, codes, all, ◌==◌,
  nat_eq, is_empty, if◌then◌else◌, Result, ok, err, compatibility_error, ◌>>=◌,
}
use cogindex.Compat.Dimensions.{Ambient, validate_embedding_dimensions}
use cogindex.Compat.Credentials.{LlmConfig, credentials_present}

pub data Severity : Type 0 where
  fine warning critical : Severity

pub data Check : Type 0 where
  cocoindex cognee_compat storage_roots embedding_dimensions llm_credentials : Check
  embedding_credentials : Check

pub record Finding : Type 0 where
  pub severity : Severity
  pub check : Check

abbrev pub finding : Severity → Check → Finding
finding severity check = record { severity = severity; check = check }

unfoldable pub not_critical : Finding → Bool
not_critical f = elim f.severity [ fine ↦ true | warning ↦ true | critical ↦ false ]

unfoldable pub report_is_ok : List Finding → Bool
unfolding not_critical
report_is_ok findings = all not_critical findings

-- `except CompatibilityError`: another exception goes on.
unfoldable pub check_returns {ℓ} : {A : Type ℓ} → Check → Result A → Result Finding
check_returns check (ok a) = ok (finding fine check)
check_returns check (err compatibility_error) = ok (finding critical check)
check_returns check (err e) = err e

unfoldable pub check_cognee_compat : Result Text → Result Finding
unfolding check_returns
check_cognee_compat load = check_returns cognee_compat load

unfoldable pub check_embedding_dimensions : Ambient → Result Finding
unfolding check_returns validate_embedding_dimensions
check_embedding_dimensions ambient =
    check_returns embedding_dimensions (validate_embedding_dimensions ambient)

unfoldable pub check_cocoindex : Option Text → Finding
check_cocoindex none = finding critical cocoindex
check_cocoindex (some version) = finding fine cocoindex

unfoldable pub starts_with : Text → Text → Bool
unfolding nat_eq
starts_with [] t = true
starts_with (c ∷ s) [] = false
starts_with (c ∷ s) (d ∷ t) = let rest = starts_with s t in c == d && rest

-- `s in t`
unfoldable pub is_within : Text → Text → Bool
unfolding starts_with
is_within s [] = is_empty s
is_within s (d ∷ t) = let rest = is_within s t in starts_with s (d ∷ t) || rest

unfoldable pub is_packaged : Text → Bool
unfolding is_within
is_packaged path = is_within (codes "site-packages") path

unfoldable pub check_root : Text → Finding
unfolding is_packaged
check_root path =
    if is_packaged path then finding critical storage_roots else finding fine storage_roots

unfoldable pub check_storage_roots : Option Text × Option Text → List Finding
unfolding check_root
check_storage_roots (some data_root, some system_root) =
    check_root data_root ∷ check_root system_root ∷ []
check_storage_roots _ = finding critical storage_roots ∷ []

unfoldable pub check_credential : Check → Option Bool → Finding
check_credential check (some true) = finding fine check
check_credential check (some false) = finding critical check
check_credential check none = finding warning check

unfoldable pub check_credentials : Option Bool × Option Bool → List Finding
unfolding check_credential
check_credentials (llm_ok, embedding_ok) =
    check_credential llm_credentials llm_ok
    ∷ check_credential embedding_credentials embedding_ok
    ∷ []

-- The environment: the installed version of cocoindex, `_compat.load`, Cognee's storage
-- configuration, and what its other settings are computed from
pub record Environment : Type 0 where
  pub cocoindex_version : Option Text
  pub load : Result Text
  pub get_base_config : Result (Text × Text)
  pub get_llm_config : Result LlmConfig
  pub ambient : Ambient

-- `storage_roots` of src/cogindex/_compat.py
unfoldable pub roots_of : Result (Text × Text) → Option Text × Option Text
roots_of (err e) = (none, none)
roots_of (ok (data_root, system_root)) = (some data_root, some system_root)

unfoldable pub credentials_of : Environment → Option Bool × Option Bool
unfolding credentials_present
credentials_of env =
    credentials_present env.ambient.strip env.get_llm_config env.ambient.get_embedding_config

-- The findings in their order, from those of the calls that may raise
unfoldable pub findings_of : Environment → Bool → Finding → Finding → List Finding
unfolding check_cocoindex check_storage_roots check_credentials roots_of credentials_of
findings_of env with_credentials compat width =
    check_cocoindex env.cocoindex_version
    ∷ compat
    ∷ (check_storage_roots (roots_of env.get_base_config)
        ++ (width ∷ (if with_credentials then check_credentials (credentials_of env) else [])))

unfoldable pub doctor : Environment → Bool → Result (List Finding)
unfolding check_cognee_compat check_embedding_dimensions findings_of
doctor env with_credentials = do
  compat ← check_cognee_compat env.load
  width ← check_embedding_dimensions env.ambient
  ok (findings_of env with_credentials compat width)
