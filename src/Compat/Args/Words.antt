-- ===== src/Compat/Args/Words.antt =====
-- The tokens that mark an argument as a credential, a place or an execution knob.
use cogindex.Base.{List, [], ◌∷◌, Text, codes}

-- `_EXCLUDED_MODEL_ARG_TOKENS`
abbrev pub excluded_tokens : List Text
excluded_tokens =
    codes "apikey"
    ∷ codes "auth"
    ∷ codes "authentication"
    ∷ codes "authorization"
    ∷ codes "batch"
    ∷ codes "certificate"
    ∷ codes "concurrency"
    ∷ codes "cookie"
    ∷ codes "cookies"
    ∷ codes "credential"
    ∷ codes "credentials"
    ∷ codes "endpoint"
    ∷ codes "header"
    ∷ codes "headers"
    ∷ codes "host"
    ∷ codes "logger"
    ∷ codes "logging"
    ∷ codes "parallelism"
    ∷ codes "password"
    ∷ codes "port"
    ∷ codes "proxy"
    ∷ codes "retry"
    ∷ codes "retries"
    ∷ codes "secret"
    ∷ codes "stream"
    ∷ codes "streaming"
    ∷ codes "telemetry"
    ∷ codes "timeout"
    ∷ codes "trace"
    ∷ codes "tracing"
    ∷ codes "uri"
    ∷ codes "url"
    ∷ codes "worker"
    ∷ codes "workers"
    ∷ []

-- `_EXCLUDED_MODEL_ARG_TOKEN_SEQUENCES`
abbrev pub excluded_sequences : List (List Text)
excluded_sequences =
    (codes "access" ∷ codes "key" ∷ [])
    ∷ (codes "access" ∷ codes "token" ∷ [])
    ∷ (codes "api" ∷ codes "base" ∷ [])
    ∷ (codes "api" ∷ codes "key" ∷ [])
    ∷ (codes "auth" ∷ codes "token" ∷ [])
    ∷ (codes "base" ∷ codes "url" ∷ [])
    ∷ (codes "bearer" ∷ codes "token" ∷ [])
    ∷ (codes "cache" ∷ codes "key" ∷ [])
    ∷ (codes "csrf" ∷ codes "token" ∷ [])
    ∷ (codes "encryption" ∷ codes "key" ∷ [])
    ∷ (codes "id" ∷ codes "token" ∷ [])
    ∷ (codes "idempotency" ∷ codes "key" ∷ [])
    ∷ (codes "log" ∷ codes "file" ∷ [])
    ∷ (codes "log" ∷ codes "format" ∷ [])
    ∷ (codes "log" ∷ codes "handler" ∷ [])
    ∷ (codes "log" ∷ codes "level" ∷ [])
    ∷ (codes "log" ∷ codes "path" ∷ [])
    ∷ (codes "parallel" ∷ codes "requests" ∷ [])
    ∷ (codes "private" ∷ codes "key" ∷ [])
    ∷ (codes "public" ∷ codes "key" ∷ [])
    ∷ (codes "rate" ∷ codes "limit" ∷ [])
    ∷ (codes "refresh" ∷ codes "token" ∷ [])
    ∷ (codes "routing" ∷ codes "key" ∷ [])
    ∷ (codes "secret" ∷ codes "key" ∷ [])
    ∷ (codes "session" ∷ codes "token" ∷ [])
    ∷ (codes "web" ∷ codes "identity" ∷ codes "token" ∷ [])
    ∷ []

-- `_AMBIGUOUS_SECRET_SUFFIXES`
abbrev pub secret_suffixes : List Text
secret_suffixes = codes "key" ∷ codes "token" ∷ []
