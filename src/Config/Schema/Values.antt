-- ===== src/Config/Schema/Values.antt =====
-- The values of the fields of `envSchema` in src/config/env.schema.ts, each parsed from its variable.
use capybara_ai.Prelude.{String, Option, none, some, [], ◌∷◌, ℕ}
use capybara_ai.Config.Schema.{
  Env, Zod, any_text, is_named, optional, defaulted, enum_of, number_in,
}

module _ (zod : Zod) (env : Env) where
  abbrev pub app_env_field : Option String
  app_env_field = enum_of ("development" ∷ "test" ∷ "production" ∷ []) "development" (env "APP_ENV")

  abbrev pub node_env_field : Option (Option String)
  node_env_field = optional any_text (env "NODE_ENV")

  abbrev pub app_port_field : Option ℕ
  app_port_field = number_in zod 1 (some 65_535) 3000 (env "APP_PORT")

  abbrev pub app_bind_field : Option String
  app_bind_field = defaulted is_named "127.0.0.1" (env "APP_BIND")

  abbrev pub app_base_url_field : Option (Option String)
  app_base_url_field = optional zod.is_url (env "APP_BASE_URL")

  abbrev pub database_url_field : Option (Option String)
  database_url_field = optional is_named (env "DATABASE_URL")

  abbrev pub database_migration_url_field : Option (Option String)
  database_migration_url_field = optional is_named (env "DATABASE_MIGRATION_URL")

  abbrev pub cookie_secret_field : Option (Option String)
  cookie_secret_field = optional any_text (env "COOKIE_SECRET")

  abbrev pub session_secret_field : Option (Option String)
  session_secret_field = optional any_text (env "SESSION_SECRET")

  abbrev pub cors_allowed_origins_field : Option (Option String)
  cors_allowed_origins_field = optional any_text (env "CORS_ALLOWED_ORIGINS")

  abbrev pub log_level_field : Option String
  log_level_field =
      enum_of ("fatal" ∷ "error" ∷ "warn" ∷ "info" ∷ "debug" ∷ "trace" ∷ []) "info"
        (env "LOG_LEVEL")

  abbrev pub rate_limit_max_field : Option ℕ
  rate_limit_max_field = number_in zod 1 none 100 (env "RATE_LIMIT_MAX")

  abbrev pub rate_limit_window_ms_field : Option ℕ
  rate_limit_window_ms_field = number_in zod 1 none 60_000 (env "RATE_LIMIT_WINDOW_MS")

  abbrev pub rate_limit_llm_hourly_field : Option ℕ
  rate_limit_llm_hourly_field = number_in zod 1 none 50 (env "RATE_LIMIT_LLM_HOURLY")

  abbrev pub rate_limit_uploads_hourly_field : Option ℕ
  rate_limit_uploads_hourly_field = number_in zod 1 none 20 (env "RATE_LIMIT_UPLOADS_HOURLY")

  abbrev pub rate_limit_streams_per_org_field : Option ℕ
  rate_limit_streams_per_org_field = number_in zod 1 none 10 (env "RATE_LIMIT_STREAMS_PER_ORG")

  abbrev pub storage_quota_mb_per_org_field : Option ℕ
  storage_quota_mb_per_org_field = number_in zod 1 none 500 (env "STORAGE_QUOTA_MB_PER_ORG")

  abbrev pub login_max_failures_field : Option ℕ
  login_max_failures_field = number_in zod 1 none 10 (env "LOGIN_MAX_FAILURES")

  abbrev pub login_failure_window_ms_field : Option ℕ
  login_failure_window_ms_field = number_in zod 1 none 900_000 (env "LOGIN_FAILURE_WINDOW_MS")

  abbrev pub login_lock_base_ms_field : Option ℕ
  login_lock_base_ms_field = number_in zod 1 none 900_000 (env "LOGIN_LOCK_BASE_MS")

  abbrev pub login_lock_max_ms_field : Option ℕ
  login_lock_max_ms_field = number_in zod 1 none 86_400_000 (env "LOGIN_LOCK_MAX_MS")

  abbrev pub llm_providers_field : Option (Option String)
  llm_providers_field = optional any_text (env "LLM_PROVIDERS")

  abbrev pub llm_default_provider_field : Option (Option String)
  llm_default_provider_field = optional any_text (env "LLM_DEFAULT_PROVIDER")

  abbrev pub llm_request_timeout_ms_field : Option ℕ
  llm_request_timeout_ms_field = number_in zod 1 none 30_000 (env "LLM_REQUEST_TIMEOUT_MS")

  abbrev pub encryption_key_field : Option (Option String)
  encryption_key_field = optional any_text (env "ENCRYPTION_KEY")

  abbrev pub master_kek_field : Option (Option String)
  master_kek_field = optional any_text (env "MASTER_KEK")

  abbrev pub key_source_field : Option String
  key_source_field = enum_of ("env" ∷ "file" ∷ "command" ∷ []) "env" (env "KEY_SOURCE")

  abbrev pub encryption_key_file_field : Option (Option String)
  encryption_key_file_field = optional any_text (env "ENCRYPTION_KEY_FILE")

  abbrev pub document_encryption_key_file_field : Option (Option String)
  document_encryption_key_file_field = optional any_text (env "DOCUMENT_ENCRYPTION_KEY_FILE")

  abbrev pub master_kek_file_field : Option (Option String)
  master_kek_file_field = optional any_text (env "MASTER_KEK_FILE")

  abbrev pub encryption_key_command_field : Option (Option String)
  encryption_key_command_field = optional any_text (env "ENCRYPTION_KEY_COMMAND")

  abbrev pub document_encryption_key_command_field : Option (Option String)
  document_encryption_key_command_field = optional any_text (env "DOCUMENT_ENCRYPTION_KEY_COMMAND")

  abbrev pub master_kek_command_field : Option (Option String)
  master_kek_command_field = optional any_text (env "MASTER_KEK_COMMAND")

  abbrev pub audit_anchor_private_key_field : Option (Option String)
  audit_anchor_private_key_field = optional any_text (env "AUDIT_ANCHOR_PRIVATE_KEY")

  abbrev pub audit_anchor_public_key_field : Option (Option String)
  audit_anchor_public_key_field = optional any_text (env "AUDIT_ANCHOR_PUBLIC_KEY")

  abbrev pub audit_anchor_dir_field : Option (Option String)
  audit_anchor_dir_field = optional any_text (env "AUDIT_ANCHOR_DIR")

  abbrev pub oidc_issuer_field : Option (Option String)
  oidc_issuer_field = optional zod.is_url (env "OIDC_ISSUER")

  abbrev pub oidc_client_id_field : Option (Option String)
  oidc_client_id_field = optional any_text (env "OIDC_CLIENT_ID")

  abbrev pub oidc_client_secret_field : Option (Option String)
  oidc_client_secret_field = optional any_text (env "OIDC_CLIENT_SECRET")

  abbrev pub oidc_redirect_uri_field : Option (Option String)
  oidc_redirect_uri_field = optional zod.is_url (env "OIDC_REDIRECT_URI")

  abbrev pub saml_entry_point_field : Option (Option String)
  saml_entry_point_field = optional zod.is_url (env "SAML_ENTRY_POINT")

  abbrev pub saml_issuer_field : Option (Option String)
  saml_issuer_field = optional any_text (env "SAML_ISSUER")

  abbrev pub saml_callback_url_field : Option (Option String)
  saml_callback_url_field = optional zod.is_url (env "SAML_CALLBACK_URL")

  abbrev pub saml_idp_cert_field : Option (Option String)
  saml_idp_cert_field = optional any_text (env "SAML_IDP_CERT")

  abbrev pub document_encryption_key_field : Option (Option String)
  document_encryption_key_field = optional any_text (env "DOCUMENT_ENCRYPTION_KEY")

  abbrev pub embedding_provider_field : Option String
  embedding_provider_field = enum_of ("local" ∷ "openai" ∷ []) "local" (env "EMBEDDING_PROVIDER")

  abbrev pub embedding_model_field : Option String
  embedding_model_field = defaulted any_text "nomic-embed-text" (env "EMBEDDING_MODEL")

  abbrev pub ollama_base_url_field : Option (Option String)
  ollama_base_url_field = optional zod.is_url (env "OLLAMA_BASE_URL")

  abbrev pub openai_embedding_model_field : Option String
  openai_embedding_model_field =
      defaulted any_text "text-embedding-3-small" (env "OPENAI_EMBEDDING_MODEL")

  abbrev pub openai_embedding_base_url_field : Option String
  openai_embedding_base_url_field =
      defaulted zod.is_url "https://api.openai.com/v1" (env "OPENAI_EMBEDDING_BASE_URL")

  abbrev pub openai_api_key_field : Option (Option String)
  openai_api_key_field = optional any_text (env "OPENAI_API_KEY")

  abbrev pub max_upload_size_mb_field : Option ℕ
  max_upload_size_mb_field = number_in zod 1 none 50 (env "MAX_UPLOAD_SIZE_MB")

  abbrev pub clamav_socket_field : Option (Option String)
  clamav_socket_field = optional any_text (env "CLAMAV_SOCKET")

  abbrev pub document_storage_dir_field : Option String
  document_storage_dir_field = defaulted any_text "/data/documents" (env "DOCUMENT_STORAGE_DIR")

  abbrev pub enable_api_docs_field : Option (Option String)
  enable_api_docs_field = optional any_text (env "ENABLE_API_DOCS")

  abbrev pub webhook_timeout_ms_field : Option ℕ
  webhook_timeout_ms_field = number_in zod 1 none 5_000 (env "WEBHOOK_TIMEOUT_MS")

  abbrev pub webhook_max_retries_field : Option ℕ
  webhook_max_retries_field = number_in zod 0 none 3 (env "WEBHOOK_MAX_RETRIES")
