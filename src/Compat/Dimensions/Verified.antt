-- ===== src/Compat/Dimensions/Verified.antt =====
-- What `validate_embedding_dimensions` of src/cogindex/_compat.py has verified when it returns.
use cogindex.Base.{
  ℕ, arith, true, Option, none, some, Text, nat_eq, ◌==◌, ==_sound, ◌≡◌, ◌↔◌, ◌⊎◌, inl, inr, refl,
  ◌∙◌, ap, Result, ok, err, ◌>>=◌, >>=-eq-ok,
}
use cogindex.Compat.Config.{required_str, positive_int}
use cogindex.Compat.Dimensions.{
  Ambient, EmbeddingConfig, explicit_embedding_dimensions, registry_dimensions, agreed,
  backed_dimensions, resolved_embedding_dimensions, as_incompatible, configured_dimensions,
  validate_embedding_dimensions,
}

module _ (a : Ambient) where
  -- The width n is set explicitly, or it is not and the registry has n for the configured model.
  unfoldable pub IsBacked : EmbeddingConfig → Text → Text → ℕ → Type 0
  IsBacked config provider model n =
      (explicit_embedding_dimensions a config ≡ ok (some n))
      ⊎ ((explicit_embedding_dimensions a config ≡ ok none)
          × (registry_dimensions a provider model ≡ ok n))

  -- The live configuration names a provider and a model and has the positive width n, and n is
  -- backed.
  unfoldable pub IsVerified : ℕ → Type 0
  unfolding IsBacked
  IsVerified n =
      (config : EmbeddingConfig) × (provider : Text) × (model : Text) × (a.get_embedding_config
        ≡ ok config)
      × (required_str config.provider ≡ ok provider)
      × (required_str config.model ≡ ok model)
      × (positive_int config.dimensions ≡ ok n)
      × IsBacked config provider model n

  agreed_lem : (m n : ℕ) {k : ℕ} → agreed a m n ≡ ok k → (m ≡ k) × (n ≡ k)
  unfolding agreed
  agreed_lem m n h =
      let same : (m == n) ≡ true = ground arith in
      let equal : m ≡ n = ==_sound m n same in ground arith

  as_incompatible_lem : (r : Result ℕ) {n : ℕ} → as_incompatible a r ≡ ok n → r ≡ ok n
  unfolding as_incompatible
  as_incompatible_lem (ok n) h = h
  as_incompatible_lem (err e) h = cc

  backed_dimensions_lem :
      (config : EmbeddingConfig) (provider model : Text) (m : ℕ) (explicit : Option ℕ) {n : ℕ}
      → explicit_embedding_dimensions a config ≡ ok explicit
      → backed_dimensions a m provider model explicit ≡ ok n
      → (m ≡ n) × IsBacked config provider model n
  unfolding backed_dimensions IsBacked
  backed_dimensions_lem config provider model m none {n} stated h =
      let (registry, found, h1) = >>=-eq-ok (registry_dimensions a provider model) _ h in
      let same = agreed_lem m registry h1 in (same.0, inr (stated, found ∙ ap ok same.1))
  backed_dimensions_lem config provider model m (some k) stated h =
      let same = agreed_lem m k h in (same.0, inl (stated ∙ ap (λ u. ok (some u)) same.1))

  returns-IsVerified : {n : ℕ} → validate_embedding_dimensions a ≡ ok n → IsVerified n
  unfolding validate_embedding_dimensions configured_dimensions resolved_embedding_dimensions
      IsVerified
  returns-IsVerified {n} h =
      let all_of = as_incompatible_lem (configured_dimensions a) h in
      let (config, got, h1) = >>=-eq-ok a.get_embedding_config _ all_of in
      let (provider, given, h2) = >>=-eq-ok (required_str config.provider) _ h1 in
      let (model, named, h3) = >>=-eq-ok (required_str config.model) _ h2 in
      let (configured, read, h4) = >>=-eq-ok (positive_int config.dimensions) _ h3 in
      let (explicit, stated, h5) = >>=-eq-ok (explicit_embedding_dimensions a config) _ h4 in
      let backed = backed_dimensions_lem config provider model configured explicit stated h5 in
      (config, provider, model, got, given, named, read ∙ ap ok backed.0, backed.1)

  agreed_same : (n : ℕ) → agreed a n n ≡ ok n
  unfolding agreed nat_eq
  agreed_same n = ground arith

  backed_returns :
      (config : EmbeddingConfig) (provider model : Text) (n : ℕ)
      → IsBacked config provider model n
      → (explicit_embedding_dimensions a config >>= λ explicit.
          backed_dimensions a n provider model explicit)
        ≡ ok n
  unfolding backed_dimensions IsBacked
  backed_returns config provider model n (inl stated) = rw (stated) (agreed_same n)
  backed_returns config provider model n (inr (stated, found)) = rw (stated, found) (agreed_same n)

  verified_returns : {n : ℕ} → IsVerified n → validate_embedding_dimensions a ≡ ok n
  unfolding validate_embedding_dimensions configured_dimensions resolved_embedding_dimensions
      IsVerified as_incompatible
  verified_returns {n} (config, provider, model, got, given, named, read, backed) =
      rw (got, given, named, read, backed_returns config provider model n backed) refl

  -- For each n, validate_embedding_dimensions returns n exactly if Cognee's configuration can be
  -- read, names a provider and a model, and has the positive width n, and EMBEDDING_DIMENSIONS is n
  -- or, where it is not set, the registry has n for the model.
  pub validate_embedding_dimensions-IsVerified :
      (n : ℕ) → (validate_embedding_dimensions a ≡ ok n) ↔ IsVerified n
  validate_embedding_dimensions-IsVerified n = (returns-IsVerified, verified_returns)
