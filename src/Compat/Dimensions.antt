-- ===== src/Compat/Dimensions.antt =====
-- The width of Cognee's embeddings, as src/cogindex/_compat.py checks it before a write.
pub mod Verified
use cogindex.Base.{
  ℕ, zero, suc, List, [], ◌∷◌, Bool, true, false, not, ◌&&◌, Option, none, some, Text, codes, ◌==◌,
  list_eq, nat_eq, is_empty, if◌then◌else◌, Result, ok, err, type_error, value_error,
  compatibility_error, ◌>>=◌, ◌>>◌, refuse,
}
use cogindex.Compat.Config.{
  Attr, absent, nothing, unfit, str, whole, negative, required_str, positive_int,
}

-- `embedding_provider`, `embedding_model`, `embedding_dimensions`, `embedding_api_key` and the
-- paths of `model_config["env_file"]`, none where it is None
pub record EmbeddingConfig : Type 0 where
  pub provider : Attr
  pub model : Attr
  pub dimensions : Attr
  pub api_key : Attr
  pub env_files : Option (List Text)

-- A number that `int(raw)` reads; `negsuc n` is -(n + 1).
pub data Whole : Type 0 where
  pos negsuc : ℕ → Whole

-- The process's environment, Cognee's modules, and what is used of Python's text methods and of
-- python-dotenv.
pub record Ambient : Type 0 where
  -- `os.getenv`
  pub getenv : Text → Option Text
  -- `str.strip`, `str.upper` and `int`, none where it raises
  pub strip : Text → Text
  pub upper : Text → Text
  pub int_of : Text → Option Whole
  -- `Path(_).expanduser().is_file()` and `dotenv.dotenv_values`
  pub import_dotenv : Result (Unit {0})
  pub is_file : Text → Bool
  pub dotenv_values : Text → Result (List (Text × Option Text))
  -- `get_embedding_config()`, and the registry's `_resolve_embedding_dimensions`, none where it is
  -- not callable
  pub get_embedding_config : Result EmbeddingConfig
  pub resolve_dimensions : Option (Text → Text → Result Attr)

abbrev pub dimensions_name : Text
dimensions_name = codes "EMBEDDING_DIMENSIONS"

module _ (a : Ambient) where
  unfoldable pub found_among : Text → List (Text × Option Text) → Option Text → Option Text
  found_among name [] found = found
  found_among name ((key, none) ∷ values) found = found_among name values found
  found_among name ((key, some value) ∷ values) found =
      found_among name values (if a.upper key == name then some value else found)

  unfoldable pub search_files : Text → List Text → Option Text → Result (Option Text)
  unfolding found_among
  search_files name [] found = ok found
  search_files name (path ∷ paths) found =
      let skipped = search_files name paths found in
      if a.is_file path
      then (a.dotenv_values path >>= λ values.
          search_files name paths (found_among name values found))
      else skipped

  unfoldable pub dotenv_setting : EmbeddingConfig → Text → Result (Option Text)
  unfolding search_files
  dotenv_setting config name = elim config.env_files [
    | none ↦ ok none
    | some paths ↦ a.import_dotenv >> search_files name paths none
  ]

  -- `int(raw)`, which must be positive
  unfoldable pub parse_dimensions : Text → Result ℕ
  parse_dimensions raw = elim (a.int_of raw) [
    | none ↦ err value_error
    | some (pos zero) ↦ err value_error
    | some (pos (suc n)) ↦ ok (suc n)
    | some (negsuc n) ↦ err value_error
  ]

  unfoldable pub setting_of : EmbeddingConfig → Result (Option Text)
  unfolding dotenv_setting
  setting_of config = elim (a.getenv dimensions_name) [
    | none ↦ dotenv_setting config dimensions_name
    | some raw ↦ ok (some raw)
  ]

  unfoldable pub read_setting : Option Text → Result (Option ℕ)
  unfolding parse_dimensions
  read_setting none = ok none
  read_setting (some raw) =
      if is_empty (a.strip raw) then ok none else parse_dimensions raw >>= λ n. ok (some n)

  unfoldable pub explicit_embedding_dimensions : EmbeddingConfig → Result (Option ℕ)
  unfolding setting_of read_setting
  explicit_embedding_dimensions config = setting_of config >>= λ raw. read_setting raw

  -- The registry's answer for a model: None is refused as incompatible
  unfoldable pub registered : Attr → Result ℕ
  registered nothing = err compatibility_error
  registered (whole (suc n)) = ok (suc n)
  registered _ = err type_error

  unfoldable pub registry_dimensions : Text → Text → Result ℕ
  unfolding registered
  registry_dimensions provider model = elim a.resolve_dimensions [
    | none ↦ err type_error
    | some resolve ↦ resolve provider model >>= λ answer. registered answer
  ]

  unfoldable pub agreed : ℕ → ℕ → Result ℕ
  unfolding nat_eq
  agreed configured other = if configured == other then ok configured else err compatibility_error

  unfoldable pub backed_dimensions : ℕ → Text → Text → Option ℕ → Result ℕ
  unfolding registry_dimensions agreed
  backed_dimensions configured provider model none =
      registry_dimensions provider model >>= λ registry. agreed configured registry
  backed_dimensions configured provider model (some n) = agreed configured n

  unfoldable pub resolved_embedding_dimensions : EmbeddingConfig → Text → Text → Result ℕ
  unfolding positive_int explicit_embedding_dimensions backed_dimensions
  resolved_embedding_dimensions config provider model =
      positive_int config.dimensions >>= λ configured.
      explicit_embedding_dimensions config >>= λ explicit.
      backed_dimensions configured provider model explicit

  -- `except CompatibilityError: raise` and `except Exception`: every raise is that of
  -- CompatibilityError
  unfoldable pub as_incompatible : Result ℕ → Result ℕ
  as_incompatible (ok n) = ok n
  as_incompatible (err e) = err compatibility_error

  unfoldable pub configured_dimensions : Result ℕ
  unfolding required_str resolved_embedding_dimensions
  configured_dimensions = a.get_embedding_config >>= λ config.
      required_str config.provider >>= λ provider.
      required_str config.model >>= λ model. resolved_embedding_dimensions config provider model

  unfoldable pub validate_embedding_dimensions : Result ℕ
  unfolding as_incompatible configured_dimensions
  validate_embedding_dimensions = as_incompatible configured_dimensions
