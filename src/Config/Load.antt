-- ===== src/Config/Load.antt =====
-- `loadConfig` of src/config/config.ts, and the configuration that it returns. A secret or a key that
-- the source casts, since a check has thrown where it is absent, is an option here. `RATE_LIMIT_MAX` and
-- the other numbers are passed on as they were read.
mod Accepted
pub mod Hardened
pub mod Casts
use capybara_ai.Prelude.{
  ℕ, ◌*◌, String, ◌<>◌, Bool, true, false, Option, none, some, List, [], ◌∷◌, not, concat, ◌==◌,
  string_eq, nat_eq, if◌then◌else◌, get_or_else,
}
use capybara_ai.Prelude.Effect.{Result, ok, throw}
use capybara_ai.Config.Schema.{Env, Zod, ConfigIssue, RawEnv}
use capybara_ai.Config.Schema.Fields.{parse_env}
use capybara_ai.Config.Secrets.{SecretAssessment, is_strong, assess_secret}
use capybara_ai.Config.Keys.{
  ResolvedKeyMaterial, Machine, resolve_key_material, parse_encryption_key,
}
use capybara_ai.Config.Texts.{parse_origins}
use capybara_ai.Config.Providers.{
  ParsedJson, LlmProviderConfig, ProviderReading, read_providers, providers_read,
}
use capybara_ai.Config.Checks.{
  Check, issues_of, key_material, key_source_checks, required_in_production, presence_checks,
  secret_checks, origin_checks, is_text, url_checks, cookie_checks, reading_checks, default_checks,
  key_check, count_set, oidc_parts, saml_parts, sign_on_checks, embedding_checks,
}

-- `randomBytes(32)`, drawn once for each value
pub record Fresh : Type 0 where
  pub cookie_secret : String
  pub session_secret : String
  pub encryption_key : List ℕ
  pub master_kek : List ℕ
  pub document_key : List ℕ

pub record Host : Type 0 where
  pub zod : Zod
  pub machine : Machine
  pub to_lower_case : String → String
  pub parse_json : String → ParsedJson
  pub show : ℕ → String
  pub fresh : Fresh

pub record LoginLimits : Type 0 where
  pub max_failures : ℕ
  pub window_ms : ℕ
  pub lock_base_ms : ℕ
  pub lock_max_ms : ℕ

pub record Limits : Type 0 where
  pub llm_hourly : ℕ
  pub uploads_hourly : ℕ
  pub streams_per_org : ℕ
  pub storage_quota_bytes : ℕ
  pub login : LoginLimits

pub record Llm : Type 0 where
  pub providers : List LlmProviderConfig
  pub default_provider : Option String
  pub request_timeout_ms : ℕ

-- The four settings of OIDC or of SAML, in the order of the source.
pub record SignOn : Type 0 where
  pub first : Option String
  pub second : Option String
  pub third : Option String
  pub fourth : Option String

pub record Embeddings : Type 0 where
  pub provider : String
  pub model : String
  pub ollama_base_url : Option String
  pub openai_model : String
  pub openai_base_url : String
  pub openai_api_key : Option String

pub record Config : Type 0 where
  pub app_env : String
  pub is_production : Bool
  pub port : ℕ
  pub bind : String
  pub base_url : String
  pub database_url : Option String
  pub database_migration_url : Option String
  pub cookie_secret : Option String
  pub session_secret : Option String
  pub cors_allowed_origins : List String
  pub secure_cookies : Bool
  pub log_level : String
  pub rate_limit_max : ℕ
  pub rate_limit_window_ms : ℕ
  pub limits : Limits
  pub llm : Llm
  pub encryption_key : Option (List ℕ)
  pub master_kek : Option (List ℕ)
  pub oidc : Option SignOn
  pub saml : Option SignOn
  pub document_encryption_key : Option (List ℕ)
  pub embeddings : Embeddings
  pub max_upload_bytes : ℕ
  pub clamav_socket : Option String
  pub document_storage_dir : String
  pub enable_api_docs : Bool
  pub webhook_timeout_ms : ℕ
  pub webhook_max_retries : ℕ

-- The secret that is configured, or in development a fresh one where that is weak.
abbrev pub chosen_secret : Bool → SecretAssessment → Option String → String → Option String
chosen_secret production assessment configured fresh =
    if production then configured else if is_strong assessment then configured else some fresh

abbrev pub chosen_key : Bool → Option (List ℕ) → List ℕ → Option (List ℕ)
chosen_key production (some key) fresh = some key
chosen_key production none fresh = if production then none else some fresh

abbrev pub chosen_origins : Bool → List String → List String
chosen_origins production [] = if production then [] else "http://localhost:3000" ∷ []
chosen_origins production (o ∷ os) = o ∷ os

abbrev pub sign_on :
    List (Option String)
    → Option String
    → Option String
    → Option String
    → Option String
    → Option SignOn
sign_on parts a b c d =
    if count_set parts == 4
    then some (record { first = a; second = b; third = c; fourth = d })
    else none

module _ (host : Host) (env : Env) where
  abbrev pub keys_read : Result String ResolvedKeyMaterial
  unfolding resolve_key_material
  keys_read = resolve_key_material host.machine env

  abbrev pub key_of : (ResolvedKeyMaterial → Option String) → Option (List ℕ)
  unfolding parse_encryption_key
  key_of field = parse_encryption_key host.machine (field (key_material keys_read))

  abbrev pub assess : Option String → SecretAssessment
  unfolding assess_secret
  assess value = assess_secret host.to_lower_case value

  abbrev pub reading_of_env : RawEnv → ProviderReading
  reading_of_env e = read_providers host.zod.is_url host.parse_json e.llm_providers

  abbrev pub checks : RawEnv → List (List Check)
  checks e =
      let production = e.app_env == "production" in
      let keys = key_material keys_read in
      key_source_checks keys_read
      ∷ presence_checks host.machine.trim env production required_in_production
      ∷ secret_checks production (assess e.cookie_secret) (assess e.session_secret)
      ∷ origin_checks production (parse_origins host.machine.trim e.cors_allowed_origins)
      ∷ url_checks production (is_text (env "DB_ALLOW_INSECURE") "true") e.database_url
      ∷ cookie_checks production env
      ∷ reading_checks (reading_of_env e)
      ∷ default_checks (reading_of_env e) e.llm_default_provider
      ∷ (key_check production "ENCRYPTION_KEY" "must be 32 bytes (base64 or hex)"
            keys.encryption_key (key_of λ k. k.encryption_key)
          ∷ key_check production "MASTER_KEK" "must be 32 bytes (hex or base64)" keys.master_kek
              (key_of λ k. k.master_kek)
          ∷ [])
      ∷ sign_on_checks e
      ∷ (key_check production "DOCUMENT_ENCRYPTION_KEY" "must be 32 bytes (hex or base64)"
            keys.document_encryption_key (key_of λ k. k.document_encryption_key)
          ∷ [])
      ∷ embedding_checks production e
      ∷ []

  abbrev pub config_of : RawEnv → Config
  config_of e =
      let production = e.app_env == "production" in
      record {
        app_env = e.app_env;
        is_production = production;
        port = e.app_port;
        bind = e.app_bind;
        base_url =
            get_or_else e.app_base_url ("http://" <> (e.app_bind <> (":" <> host.show e.app_port)));
        database_url = e.database_url;
        database_migration_url = e.database_migration_url;
        cookie_secret =
            chosen_secret production (assess e.cookie_secret) e.cookie_secret
              host.fresh.cookie_secret;
        session_secret =
            chosen_secret production (assess e.session_secret) e.session_secret
              host.fresh.session_secret;
        cors_allowed_origins =
            chosen_origins production (parse_origins host.machine.trim e.cors_allowed_origins);
        secure_cookies = if production then true else not (is_text (env "SECURE_COOKIES") "false");
        log_level = e.log_level;
        rate_limit_max = e.rate_limit_max;
        rate_limit_window_ms = e.rate_limit_window_ms;
        limits = record {
          llm_hourly = e.rate_limit_llm_hourly;
          uploads_hourly = e.rate_limit_uploads_hourly;
          streams_per_org = e.rate_limit_streams_per_org;
          storage_quota_bytes = e.storage_quota_mb_per_org * 1024 * 1024;
          login = record {
            max_failures = e.login_max_failures;
            window_ms = e.login_failure_window_ms;
            lock_base_ms = e.login_lock_base_ms;
            lock_max_ms = e.login_lock_max_ms;
          };
        };
        llm = record {
          providers = providers_read (reading_of_env e);
          default_provider = e.llm_default_provider;
          request_timeout_ms = e.llm_request_timeout_ms;
        };
        encryption_key =
            chosen_key production (key_of λ k. k.encryption_key) host.fresh.encryption_key;
        master_kek = chosen_key production (key_of λ k. k.master_kek) host.fresh.master_kek;
        oidc =
            sign_on (oidc_parts e) e.oidc_issuer e.oidc_client_id e.oidc_client_secret
              e.oidc_redirect_uri;
        saml =
            sign_on (saml_parts e) e.saml_entry_point e.saml_issuer e.saml_callback_url
              e.saml_idp_cert;
        document_encryption_key =
            chosen_key production (key_of λ k. k.document_encryption_key) host.fresh.document_key;
        embeddings = record {
          provider = e.embedding_provider;
          model = e.embedding_model;
          ollama_base_url = e.ollama_base_url;
          openai_model = e.openai_embedding_model;
          openai_base_url = e.openai_embedding_base_url;
          openai_api_key = e.openai_api_key;
        };
        max_upload_bytes = e.max_upload_size_mb * 1024 * 1024;
        clamav_socket = e.clamav_socket;
        document_storage_dir = e.document_storage_dir;
        enable_api_docs = is_text e.enable_api_docs "true";
        webhook_timeout_ms = e.webhook_timeout_ms;
        webhook_max_retries = e.webhook_max_retries;
      }

  -- `if (issues.length > 0) throw new ConfigError(issues)`
  abbrev pub finish : List ConfigIssue → Config → Result (List ConfigIssue) Config
  finish [] config = ok config
  finish (i ∷ is) config = throw (i ∷ is)

  abbrev pub load_parsed : Result (List ConfigIssue) RawEnv → Result (List ConfigIssue) Config
  load_parsed (throw issues) = throw issues
  load_parsed (ok e) = finish (issues_of (concat (checks e))) (config_of e)

  unfoldable pub load_config : Result (List ConfigIssue) Config
  unfolding parse_env
  load_config = load_parsed (parse_env host.zod env)
