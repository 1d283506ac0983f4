-- ===== src/Tests/Reports.antt =====
-- A concrete environment of Cognee, whose embeddings have a width set in a .env file.
use cogindex.Base.{
  List, [], ◌∷◌, true, false, none, some, codes, ◌≡◌, refl, ok, ◌↔◌, list_eq, nat_eq,
}
use cogindex.Compat.Config.{str, whole}
use cogindex.Compat.Dimensions.{
  EmbeddingConfig, Ambient, pos, dimensions_name, validate_embedding_dimensions,
}
use cogindex.Compat.Dimensions.Verified.{IsVerified, validate_embedding_dimensions-IsVerified}
use cogindex.Doctor.{Finding, Environment, doctor, report_is_ok}
use cogindex.Doctor.Healthy.{IsHealthy}
use cogindex.Doctor.Exact.{doctor-IsHealthy}

abbrev embedding : EmbeddingConfig
embedding = record {
  provider = str (codes "openai");
  model = str (codes "small");
  dimensions = whole 3;
  api_key = str (codes "key");
  env_files = some (codes ".env" ∷ []);
}

abbrev ambient : Ambient
ambient = record {
  getenv = λ name. none;
  strip = λ t. t;
  upper = λ t. t;
  int_of = λ t. some (pos 3);
  import_dotenv = ok tt;
  is_file = λ path. true;
  dotenv_values = λ path. ok ((dimensions_name, some (codes "3")) ∷ []);
  get_embedding_config = ok embedding;
  resolve_dimensions = none;
}

abbrev environment : Environment
environment = record {
  cocoindex_version = some (codes "1.0");
  load = ok (codes "1.4.0");
  get_base_config = ok (codes "/data", codes "/system");
  get_llm_config = ok (record {
    provider = str (codes "openai");
    api_key = str (codes "key");
    managed_identity = false;
  });
  ambient = ambient;
}

width_lem : validate_embedding_dimensions ambient ≡ ok 3
unfolding validate_embedding_dimensions nat_eq list_eq
width_lem = refl

validate_embedding_dimensions-IsVerified_example :
    (validate_embedding_dimensions ambient ≡ ok 3) ↔ IsVerified ambient 3
validate_embedding_dimensions-IsVerified_example =
    validate_embedding_dimensions-IsVerified ambient 3

doctor-IsHealthy_example :
    ((findings : List Finding) × (doctor environment true ≡ ok findings)
      × (report_is_ok findings ≡ true))
    ↔ IsHealthy environment true
doctor-IsHealthy_example = doctor-IsHealthy environment true
