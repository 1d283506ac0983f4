-- ===== src/Compat/Args/Names.antt =====
-- The tables of _compat.py that classify the arguments of a model.
use cogindex.Base.{List, [], ◌∷◌, Text, codes}

-- `_GENERATION_MODEL_ARG_FIELDS`
abbrev pub generation_fields : List Text
generation_fields =
    codes "additional_drop_params"
    ∷ codes "allowed_openai_params"
    ∷ codes "api_version"
    ∷ codes "audio"
    ∷ codes "candidate_count"
    ∷ codes "context_management"
    ∷ codes "custom_llm_provider"
    ∷ codes "do_sample"
    ∷ codes "drop_params"
    ∷ codes "frequency_penalty"
    ∷ codes "function_call"
    ∷ codes "functions"
    ∷ codes "guided_choice"
    ∷ codes "guided_decoding_backend"
    ∷ codes "guided_grammar"
    ∷ codes "guided_json"
    ∷ codes "guided_regex"
    ∷ codes "include_server_side_tool_invocations"
    ∷ codes "length_penalty"
    ∷ codes "logit_bias"
    ∷ codes "logprobs"
    ∷ codes "max_completion_tokens"
    ∷ codes "max_new_tokens"
    ∷ codes "max_output_tokens"
    ∷ codes "max_tokens"
    ∷ codes "min_p"
    ∷ codes "modalities"
    ∷ codes "mock_response"
    ∷ codes "mock_tool_calls"
    ∷ codes "n"
    ∷ codes "num_beams"
    ∷ codes "parallel_tool_calls"
    ∷ codes "prediction"
    ∷ codes "presence_penalty"
    ∷ codes "reasoning_effort"
    ∷ codes "repetition_penalty"
    ∷ codes "response_format"
    ∷ codes "safety_settings"
    ∷ codes "seed"
    ∷ codes "stop"
    ∷ codes "temperature"
    ∷ codes "thinking"
    ∷ codes "tool_choice"
    ∷ codes "tools"
    ∷ codes "top_k"
    ∷ codes "top_logprobs"
    ∷ codes "top_p"
    ∷ codes "typical_p"
    ∷ codes "verbosity"
    ∷ codes "web_search_options"
    ∷ []

-- `_NESTED_MODEL_ARG_FIELDS`
abbrev pub nested_fields : List Text
nested_fields =
    codes "context_window_fallback_dict"
    ∷ codes "context_window_fallbacks"
    ∷ codes "extra_body"
    ∷ codes "fallbacks"
    ∷ codes "model_alias_map"
    ∷ codes "provider_options"
    ∷ []

-- `_EXCLUDED_MODEL_ARG_FIELDS`
abbrev pub excluded_fields : List Text
excluded_fields =
    codes "acompletion"
    ∷ codes "api_base"
    ∷ codes "api_key"
    ∷ codes "apikey"
    ∷ codes "auth"
    ∷ codes "authentication"
    ∷ codes "authorization"
    ∷ codes "aws_access_key_id"
    ∷ codes "aws_bedrock_project_id"
    ∷ codes "aws_bedrock_runtime_endpoint"
    ∷ codes "aws_external_id"
    ∷ codes "aws_profile_name"
    ∷ codes "aws_region_name"
    ∷ codes "aws_role_name"
    ∷ codes "aws_secret_access_key"
    ∷ codes "aws_session_name"
    ∷ codes "aws_session_token"
    ∷ codes "aws_sts_endpoint"
    ∷ codes "aws_web_identity_token"
    ∷ codes "azure_ad_token"
    ∷ codes "azure_password"
    ∷ codes "azure_scope"
    ∷ codes "azure_username"
    ∷ codes "base_url"
    ∷ codes "batch_size"
    ∷ codes "bearer_token"
    ∷ codes "client"
    ∷ codes "client_id"
    ∷ codes "client_secret"
    ∷ codes "completion_call_id"
    ∷ codes "cookie"
    ∷ codes "cookies"
    ∷ codes "cooldown_time"
    ∷ codes "default_headers"
    ∷ codes "deployment_id"
    ∷ codes "enable_json_schema_validation"
    ∷ codes "endpoint"
    ∷ codes "extra_headers"
    ∷ codes "force_timeout"
    ∷ codes "gcs_bucket_name"
    ∷ codes "headers"
    ∷ codes "http_proxy"
    ∷ codes "https_proxy"
    ∷ codes "idempotency_key"
    ∷ codes "input_cost_per_second"
    ∷ codes "input_cost_per_token"
    ∷ codes "itpm"
    ∷ codes "litellm_call_id"
    ∷ codes "litellm_credential_name"
    ∷ codes "litellm_logging_obj"
    ∷ codes "litellm_session_id"
    ∷ codes "litellm_trace_id"
    ∷ codes "logger_fn"
    ∷ codes "max_budget"
    ∷ codes "max_parallel_requests"
    ∷ codes "max_retries"
    ∷ codes "metadata"
    ∷ codes "mock_delay"
    ∷ codes "mock_timeout"
    ∷ codes "model_info"
    ∷ codes "model_list"
    ∷ codes "no_log"
    ∷ codes "num_retries"
    ∷ codes "organization"
    ∷ codes "otpm"
    ∷ codes "output_cost_per_second"
    ∷ codes "output_cost_per_token"
    ∷ codes "parallel"
    ∷ codes "parallelism"
    ∷ codes "password"
    ∷ codes "port"
    ∷ codes "preset_cache_key"
    ∷ codes "prompt_cache_key"
    ∷ codes "prompt_cache_retention"
    ∷ codes "provider_specific_header"
    ∷ codes "proxy"
    ∷ codes "proxy_server_request"
    ∷ codes "request_timeout"
    ∷ codes "routing_key"
    ∷ codes "rpm"
    ∷ codes "safety_identifier"
    ∷ codes "service_tier"
    ∷ codes "shared_session"
    ∷ codes "ssl_verify"
    ∷ codes "store"
    ∷ codes "stream"
    ∷ codes "stream_options"
    ∷ codes "stream_timeout"
    ∷ codes "tenant_id"
    ∷ codes "timeout"
    ∷ codes "tpm"
    ∷ codes "traceparent"
    ∷ codes "user"
    ∷ codes "verbose"
    ∷ codes "vertex_ai_credentials"
    ∷ codes "vertex_ai_location"
    ∷ codes "vertex_ai_project"
    ∷ codes "vertex_credentials"
    ∷ codes "vertex_location"
    ∷ codes "vertex_project"
    ∷ []
