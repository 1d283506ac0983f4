-- ===== src/Tests/Settings.antt =====
-- Concrete model arguments and settings.
use cogindex.Base.{false, some, codes, ◌≡◌, refl, ok, list_eq, nat_eq}
use cogindex.Identity.Value.{Json, text_key, end, field, num, text, obj}
use cogindex.Compat.Args.{TextTests, canonical_model_args}
use cogindex.Compat.Args.Idempotent.{canonical_model_args-canonical_model_args}

-- Texts in lower case already, and none a URL
abbrev tests : TextTests
tests = record { lower = λ t. t; is_url = λ t. false }

abbrev args : Json
args = obj (
    field (text_key (codes "temperature")) (num (codes "0.2")) (
      field (text_key (codes "api_key")) (text (codes "secret")) (
        field (text_key (codes "extra_body"))
          (obj (field (text_key (codes "access_token")) (text (codes "t")) end)) end)))

abbrev kept : Json
kept = obj (field (text_key (codes "temperature")) (num (codes "0.2")) end)

kept_lem : canonical_model_args tests (some args) ≡ ok kept
unfolding canonical_model_args list_eq nat_eq
kept_lem = refl

canonical_model_args-canonical_model_args_example : canonical_model_args tests (some kept) ≡ ok kept
canonical_model_args-canonical_model_args_example =
    canonical_model_args-canonical_model_args tests (some args) kept kept_lem
