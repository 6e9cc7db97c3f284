-- ===== src/Config/Schema/Fields.antt =====
-- The issues of `envSchema` in src/config/env.schema.ts, and the parsing of the environment.
use capybara_ai.Prelude.{none, List, [], ◌∷◌, ◌++◌, get_or_else}
use capybara_ai.Prelude.Effect.{Result, ok, throw}
use capybara_ai.Config.Schema.{Env, Zod, ConfigIssue, RawEnv, field_issue}
use capybara_ai.Config.Schema.Values.{
  app_env_field, node_env_field, app_port_field, app_bind_field, app_base_url_field,
  database_url_field, database_migration_url_field, cookie_secret_field, session_secret_field,
  cors_allowed_origins_field, log_level_field, rate_limit_max_field, rate_limit_window_ms_field,
  rate_limit_llm_hourly_field, rate_limit_uploads_hourly_field, rate_limit_streams_per_org_field,
  storage_quota_mb_per_org_field, login_max_failures_field, login_failure_window_ms_field,
  login_lock_base_ms_field, login_lock_max_ms_field, llm_providers_field,
  llm_default_provider_field, llm_request_timeout_ms_field, encryption_key_field, master_kek_field,
  key_source_field, encryption_key_file_field, document_encryption_key_file_field,
  master_kek_file_field, encryption_key_command_field, document_encryption_key_command_field,
  master_kek_command_field, audit_anchor_private_key_field, audit_anchor_public_key_field,
  audit_anchor_dir_field, oidc_issuer_field, oidc_client_id_field, oidc_client_secret_field,
  oidc_redirect_uri_field, saml_entry_point_field, saml_issuer_field, saml_callback_url_field,
  saml_idp_cert_field, document_encryption_key_field, embedding_provider_field,
  embedding_model_field, ollama_base_url_field, openai_embedding_model_field,
  openai_embedding_base_url_field, openai_api_key_field, max_upload_size_mb_field,
  clamav_socket_field, document_storage_dir_field, enable_api_docs_field, webhook_timeout_ms_field,
  webhook_max_retries_field,
}

module _ (zod : Zod) (env : Env) where
  -- The issues of all the fields, in the order of the schema.
  unfoldable pub schema_issues : List ConfigIssue
  schema_issues =
      field_issue zod "APP_ENV" (env "APP_ENV") (app_env_field zod env)
      ++ field_issue zod "NODE_ENV" (env "NODE_ENV") (node_env_field zod env)
      ++ field_issue zod "APP_PORT" (env "APP_PORT") (app_port_field zod env)
      ++ field_issue zod "APP_BIND" (env "APP_BIND") (app_bind_field zod env)
      ++ field_issue zod "APP_BASE_URL" (env "APP_BASE_URL") (app_base_url_field zod env)
      ++ field_issue zod "DATABASE_URL" (env "DATABASE_URL") (database_url_field zod env)
      ++ field_issue zod "DATABASE_MIGRATION_URL" (env "DATABASE_MIGRATION_URL")
          (database_migration_url_field zod env)
      ++ field_issue zod "COOKIE_SECRET" (env "COOKIE_SECRET") (cookie_secret_field zod env)
      ++ field_issue zod "SESSION_SECRET" (env "SESSION_SECRET") (session_secret_field zod env)
      ++ field_issue zod "CORS_ALLOWED_ORIGINS" (env "CORS_ALLOWED_ORIGINS")
          (cors_allowed_origins_field zod env)
      ++ field_issue zod "LOG_LEVEL" (env "LOG_LEVEL") (log_level_field zod env)
      ++ field_issue zod "RATE_LIMIT_MAX" (env "RATE_LIMIT_MAX") (rate_limit_max_field zod env)
      ++ field_issue zod "RATE_LIMIT_WINDOW_MS" (env "RATE_LIMIT_WINDOW_MS")
          (rate_limit_window_ms_field zod env)
      ++ field_issue zod "RATE_LIMIT_LLM_HOURLY" (env "RATE_LIMIT_LLM_HOURLY")
          (rate_limit_llm_hourly_field zod env)
      ++ field_issue zod "RATE_LIMIT_UPLOADS_HOURLY" (env "RATE_LIMIT_UPLOADS_HOURLY")
          (rate_limit_uploads_hourly_field zod env)
      ++ field_issue zod "RATE_LIMIT_STREAMS_PER_ORG" (env "RATE_LIMIT_STREAMS_PER_ORG")
          (rate_limit_streams_per_org_field zod env)
      ++ field_issue zod "STORAGE_QUOTA_MB_PER_ORG" (env "STORAGE_QUOTA_MB_PER_ORG")
          (storage_quota_mb_per_org_field zod env)
      ++ field_issue zod "LOGIN_MAX_FAILURES" (env "LOGIN_MAX_FAILURES")
          (login_max_failures_field zod env)
      ++ field_issue zod "LOGIN_FAILURE_WINDOW_MS" (env "LOGIN_FAILURE_WINDOW_MS")
          (login_failure_window_ms_field zod env)
      ++ field_issue zod "LOGIN_LOCK_BASE_MS" (env "LOGIN_LOCK_BASE_MS")
          (login_lock_base_ms_field zod env)
      ++ field_issue zod "LOGIN_LOCK_MAX_MS" (env "LOGIN_LOCK_MAX_MS")
          (login_lock_max_ms_field zod env)
      ++ field_issue zod "LLM_PROVIDERS" (env "LLM_PROVIDERS") (llm_providers_field zod env)
      ++ field_issue zod "LLM_DEFAULT_PROVIDER" (env "LLM_DEFAULT_PROVIDER")
          (llm_default_provider_field zod env)
      ++ field_issue zod "LLM_REQUEST_TIMEOUT_MS" (env "LLM_REQUEST_TIMEOUT_MS")
          (llm_request_timeout_ms_field zod env)
      ++ field_issue zod "ENCRYPTION_KEY" (env "ENCRYPTION_KEY") (encryption_key_field zod env)
      ++ field_issue zod "MASTER_KEK" (env "MASTER_KEK") (master_kek_field zod env)
      ++ field_issue zod "KEY_SOURCE" (env "KEY_SOURCE") (key_source_field zod env)
      ++ field_issue zod "ENCRYPTION_KEY_FILE" (env "ENCRYPTION_KEY_FILE")
          (encryption_key_file_field zod env)
      ++ field_issue zod "DOCUMENT_ENCRYPTION_KEY_FILE" (env "DOCUMENT_ENCRYPTION_KEY_FILE")
          (document_encryption_key_file_field zod env)
      ++ field_issue zod "MASTER_KEK_FILE" (env "MASTER_KEK_FILE") (master_kek_file_field zod env)
      ++ field_issue zod "ENCRYPTION_KEY_COMMAND" (env "ENCRYPTION_KEY_COMMAND")
          (encryption_key_command_field zod env)
      ++ field_issue zod "DOCUMENT_ENCRYPTION_KEY_COMMAND" (env "DOCUMENT_ENCRYPTION_KEY_COMMAND")
          (document_encryption_key_command_field zod env)
      ++ field_issue zod "MASTER_KEK_COMMAND" (env "MASTER_KEK_COMMAND")
          (master_kek_command_field zod env)
      ++ field_issue zod "AUDIT_ANCHOR_PRIVATE_KEY" (env "AUDIT_ANCHOR_PRIVATE_KEY")
          (audit_anchor_private_key_field zod env)
      ++ field_issue zod "AUDIT_ANCHOR_PUBLIC_KEY" (env "AUDIT_ANCHOR_PUBLIC_KEY")
          (audit_anchor_public_key_field zod env)
      ++ field_issue zod "AUDIT_ANCHOR_DIR" (env "AUDIT_ANCHOR_DIR")
          (audit_anchor_dir_field zod env)
      ++ field_issue zod "OIDC_ISSUER" (env "OIDC_ISSUER") (oidc_issuer_field zod env)
      ++ field_issue zod "OIDC_CLIENT_ID" (env "OIDC_CLIENT_ID") (oidc_client_id_field zod env)
      ++ field_issue zod "OIDC_CLIENT_SECRET" (env "OIDC_CLIENT_SECRET")
          (oidc_client_secret_field zod env)
      ++ field_issue zod "OIDC_REDIRECT_URI" (env "OIDC_REDIRECT_URI")
          (oidc_redirect_uri_field zod env)
      ++ field_issue zod "SAML_ENTRY_POINT" (env "SAML_ENTRY_POINT")
          (saml_entry_point_field zod env)
      ++ field_issue zod "SAML_ISSUER" (env "SAML_ISSUER") (saml_issuer_field zod env)
      ++ field_issue zod "SAML_CALLBACK_URL" (env "SAML_CALLBACK_URL")
          (saml_callback_url_field zod env)
      ++ field_issue zod "SAML_IDP_CERT" (env "SAML_IDP_CERT") (saml_idp_cert_field zod env)
      ++ field_issue zod "DOCUMENT_ENCRYPTION_KEY" (env "DOCUMENT_ENCRYPTION_KEY")
          (document_encryption_key_field zod env)
      ++ field_issue zod "EMBEDDING_PROVIDER" (env "EMBEDDING_PROVIDER")
          (embedding_provider_field zod env)
      ++ field_issue zod "EMBEDDING_MODEL" (env "EMBEDDING_MODEL") (embedding_model_field zod env)
      ++ field_issue zod "OLLAMA_BASE_URL" (env "OLLAMA_BASE_URL") (ollama_base_url_field zod env)
      ++ field_issue zod "OPENAI_EMBEDDING_MODEL" (env "OPENAI_EMBEDDING_MODEL")
          (openai_embedding_model_field zod env)
      ++ field_issue zod "OPENAI_EMBEDDING_BASE_URL" (env "OPENAI_EMBEDDING_BASE_URL")
          (openai_embedding_base_url_field zod env)
      ++ field_issue zod "OPENAI_API_KEY" (env "OPENAI_API_KEY") (openai_api_key_field zod env)
      ++ field_issue zod "MAX_UPLOAD_SIZE_MB" (env "MAX_UPLOAD_SIZE_MB")
          (max_upload_size_mb_field zod env)
      ++ field_issue zod "CLAMAV_SOCKET" (env "CLAMAV_SOCKET") (clamav_socket_field zod env)
      ++ field_issue zod "DOCUMENT_STORAGE_DIR" (env "DOCUMENT_STORAGE_DIR")
          (document_storage_dir_field zod env)
      ++ field_issue zod "ENABLE_API_DOCS" (env "ENABLE_API_DOCS") (enable_api_docs_field zod env)
      ++ field_issue zod "WEBHOOK_TIMEOUT_MS" (env "WEBHOOK_TIMEOUT_MS")
          (webhook_timeout_ms_field zod env)
      ++ field_issue zod "WEBHOOK_MAX_RETRIES" (env "WEBHOOK_MAX_RETRIES")
          (webhook_max_retries_field zod env)

  -- The parsed environment, where there is no issue.
  abbrev pub raw_env : RawEnv
  raw_env = record {
    app_env = get_or_else (app_env_field zod env) "development";
    node_env = get_or_else (node_env_field zod env) none;
    app_port = get_or_else (app_port_field zod env) 3000;
    app_bind = get_or_else (app_bind_field zod env) "127.0.0.1";
    app_base_url = get_or_else (app_base_url_field zod env) none;
    database_url = get_or_else (database_url_field zod env) none;
    database_migration_url = get_or_else (database_migration_url_field zod env) none;
    cookie_secret = get_or_else (cookie_secret_field zod env) none;
    session_secret = get_or_else (session_secret_field zod env) none;
    cors_allowed_origins = get_or_else (cors_allowed_origins_field zod env) none;
    log_level = get_or_else (log_level_field zod env) "info";
    rate_limit_max = get_or_else (rate_limit_max_field zod env) 100;
    rate_limit_window_ms = get_or_else (rate_limit_window_ms_field zod env) 60_000;
    rate_limit_llm_hourly = get_or_else (rate_limit_llm_hourly_field zod env) 50;
    rate_limit_uploads_hourly = get_or_else (rate_limit_uploads_hourly_field zod env) 20;
    rate_limit_streams_per_org = get_or_else (rate_limit_streams_per_org_field zod env) 10;
    storage_quota_mb_per_org = get_or_else (storage_quota_mb_per_org_field zod env) 500;
    login_max_failures = get_or_else (login_max_failures_field zod env) 10;
    login_failure_window_ms = get_or_else (login_failure_window_ms_field zod env) 900_000;
    login_lock_base_ms = get_or_else (login_lock_base_ms_field zod env) 900_000;
    login_lock_max_ms = get_or_else (login_lock_max_ms_field zod env) 86_400_000;
    llm_providers = get_or_else (llm_providers_field zod env) none;
    llm_default_provider = get_or_else (llm_default_provider_field zod env) none;
    llm_request_timeout_ms = get_or_else (llm_request_timeout_ms_field zod env) 30_000;
    encryption_key = get_or_else (encryption_key_field zod env) none;
    master_kek = get_or_else (master_kek_field zod env) none;
    key_source = get_or_else (key_source_field zod env) "env";
    encryption_key_file = get_or_else (encryption_key_file_field zod env) none;
    document_encryption_key_file = get_or_else (document_encryption_key_file_field zod env) none;
    master_kek_file = get_or_else (master_kek_file_field zod env) none;
    encryption_key_command = get_or_else (encryption_key_command_field zod env) none;
    document_encryption_key_command =
        get_or_else (document_encryption_key_command_field zod env) none;
    master_kek_command = get_or_else (master_kek_command_field zod env) none;
    audit_anchor_private_key = get_or_else (audit_anchor_private_key_field zod env) none;
    audit_anchor_public_key = get_or_else (audit_anchor_public_key_field zod env) none;
    audit_anchor_dir = get_or_else (audit_anchor_dir_field zod env) none;
    oidc_issuer = get_or_else (oidc_issuer_field zod env) none;
    oidc_client_id = get_or_else (oidc_client_id_field zod env) none;
    oidc_client_secret = get_or_else (oidc_client_secret_field zod env) none;
    oidc_redirect_uri = get_or_else (oidc_redirect_uri_field zod env) none;
    saml_entry_point = get_or_else (saml_entry_point_field zod env) none;
    saml_issuer = get_or_else (saml_issuer_field zod env) none;
    saml_callback_url = get_or_else (saml_callback_url_field zod env) none;
    saml_idp_cert = get_or_else (saml_idp_cert_field zod env) none;
    document_encryption_key = get_or_else (document_encryption_key_field zod env) none;
    embedding_provider = get_or_else (embedding_provider_field zod env) "local";
    embedding_model = get_or_else (embedding_model_field zod env) "nomic-embed-text";
    ollama_base_url = get_or_else (ollama_base_url_field zod env) none;
    openai_embedding_model =
        get_or_else (openai_embedding_model_field zod env) "text-embedding-3-small";
    openai_embedding_base_url =
        get_or_else (openai_embedding_base_url_field zod env) "https://api.openai.com/v1";
    openai_api_key = get_or_else (openai_api_key_field zod env) none;
    max_upload_size_mb = get_or_else (max_upload_size_mb_field zod env) 50;
    clamav_socket = get_or_else (clamav_socket_field zod env) none;
    document_storage_dir = get_or_else (document_storage_dir_field zod env) "/data/documents";
    enable_api_docs = get_or_else (enable_api_docs_field zod env) none;
    webhook_timeout_ms = get_or_else (webhook_timeout_ms_field zod env) 5_000;
    webhook_max_retries = get_or_else (webhook_max_retries_field zod env) 3;
  }

  -- `envSchema.safeParse(env)`
  abbrev pub accept_if : List ConfigIssue → Result (List ConfigIssue) RawEnv
  accept_if [] = ok raw_env
  accept_if (i ∷ is) = throw (i ∷ is)

  unfoldable pub parse_env : Result (List ConfigIssue) RawEnv
  unfolding schema_issues
  parse_env = accept_if schema_issues
