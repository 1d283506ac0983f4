-- ===== src/Compat/Credentials.antt =====
-- `credentials_present` of src/cogindex/_compat.py: whether the keys of the language model and of the
-- embeddings look usable. None is `none`: it cannot be told.
use cogindex.Base.{
  List, [], ◌∷◌, Bool, true, false, not, ◌&&◌, ◌||◌, Option, none, some, Text, codes, ◌==◌, list_eq,
  nat_eq, contains, is_empty, if◌then◌else◌, Result, ok, err,
}
use cogindex.Compat.Config.{Attr, str, required_str}
use cogindex.Compat.Dimensions.{EmbeddingConfig}

-- `llm_provider`, `llm_api_key` and the truth of `llm_azure_use_managed_identity`, false where it is
-- absent
pub record LlmConfig : Type 0 where
  pub provider : Attr
  pub api_key : Attr
  pub managed_identity : Bool

abbrev pub key_required_llm_providers : List Text
key_required_llm_providers =
    codes "anthropic"
    ∷ codes "custom"
    ∷ codes "gemini"
    ∷ codes "mistral"
    ∷ codes "ollama"
    ∷ codes "openai"
    ∷ []

abbrev pub keyless_embedding_providers : List Text
keyless_embedding_providers = codes "fastembed" ∷ codes "ollama" ∷ []

module _ (strip : Text → Text) where
  -- `isinstance(key, str) and bool(key.strip())`; an absent key is None
  unfoldable pub is_key : Attr → Bool
  is_key (str s) = not (is_empty (strip s))
  is_key _ = false

  unfoldable pub llm_credentials : Text → Bool → Bool → Option Bool
  unfolding list_eq nat_eq
  llm_credentials provider key_present managed_identity =
      if contains provider key_required_llm_providers
      then some key_present
      else if provider == codes "azure"
      then some (key_present || managed_identity)
      else if provider == codes "llama_cpp"
      then some true
      else none

  unfoldable pub llm_read : LlmConfig → Result Text → Bool × Text × Option Bool
  unfolding is_key llm_credentials
  llm_read llm (err e) = (false, [], none)
  llm_read llm (ok provider) =
      let key_present = is_key llm.api_key in
      (key_present, provider, llm_credentials provider key_present llm.managed_identity)

  -- What the first try leaves: whether a key is present, the provider, and the verdict
  unfoldable pub llm_state : Result LlmConfig → Bool × Text × Option Bool
  unfolding llm_read required_str
  llm_state (err e) = (false, [], none)
  llm_state (ok llm) = llm_read llm (required_str llm.provider)

  unfoldable pub embedding_credentials : Text → Bool → Bool → Text → Option Bool
  unfolding list_eq nat_eq
  embedding_credentials provider key_present llm_key_present llm_provider =
      if key_present || contains provider keyless_embedding_providers
      then some true
      else if llm_key_present
          && (provider == codes "openai_compatible" || not (llm_provider == codes "custom"))
      then some true
      else if contains provider (codes "openai" ∷ codes "openai_compatible" ∷ [])
      then some false
      else none

  unfoldable pub embedding_state : Result EmbeddingConfig → Bool → Text → Option Bool
  unfolding is_key embedding_credentials required_str
  embedding_state (err e) llm_key_present llm_provider = none
  embedding_state (ok embedding) llm_key_present llm_provider =
      elim (required_str embedding.provider) [
        | err e ↦ none
        | ok provider ↦
            embedding_credentials provider (is_key embedding.api_key) llm_key_present llm_provider
      ]

  unfoldable pub credentials_present :
      Result LlmConfig → Result EmbeddingConfig → Option Bool × Option Bool
  unfolding llm_state embedding_state
  credentials_present llm embedding =
      let state = llm_state llm in (state.2, embedding_state embedding state.0 state.1)
