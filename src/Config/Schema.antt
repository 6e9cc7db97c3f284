-- ===== src/Config/Schema.antt =====
-- The shape of the environment: `envSchema` of src/config/env.schema.ts. What `z.string().url()` accepts,
-- `Number(text)`, and the wording of an issue are the zod package's and JavaScript's, and enter as
-- `Zod`. A field's parser answers none where zod reports an issue; a field is named as its variable.
mod Values
pub mod Fields
use capybara_ai.Prelude.{
  ℕ, String, Bool, true, false, Option, none, some, List, [], ◌∷◌, ◌++◌, leb, not, includes,
  if◌then◌else◌, ◌==◌, string_eq, ◌&&◌, is_some, get_or_else,
}
use capybara_ai.Prelude.Effect.{Result, ok, throw}

-- `process.env`
abbrev pub Env : Type 0
Env = String → Option String

pub record Zod : Type 0 where
  pub is_url : String → Bool
  -- a whole number that is not negative, if the text is one
  pub to_number : String → Option ℕ
  pub message : String → Option String → String

-- `ConfigIssue` of src/config/config.ts
pub record ConfigIssue : Type 0 where
  pub variable : String
  pub reason : String

pub record RawEnv : Type 0 where
  pub app_env : String
  pub node_env : Option String
  pub app_port : ℕ
  pub app_bind : String
  pub app_base_url : Option String
  pub database_url : Option String
  pub database_migration_url : Option String
  pub cookie_secret : Option String
  pub session_secret : Option String
  pub cors_allowed_origins : Option String
  pub log_level : String
  pub rate_limit_max : ℕ
  pub rate_limit_window_ms : ℕ
  pub rate_limit_llm_hourly : ℕ
  pub rate_limit_uploads_hourly : ℕ
  pub rate_limit_streams_per_org : ℕ
  pub storage_quota_mb_per_org : ℕ
  pub login_max_failures : ℕ
  pub login_failure_window_ms : ℕ
  pub login_lock_base_ms : ℕ
  pub login_lock_max_ms : ℕ
  pub llm_providers : Option String
  pub llm_default_provider : Option String
  pub llm_request_timeout_ms : ℕ
  pub encryption_key : Option String
  pub master_kek : Option String
  pub key_source : String
  pub encryption_key_file : Option String
  pub document_encryption_key_file : Option String
  pub master_kek_file : Option String
  pub encryption_key_command : Option String
  pub document_encryption_key_command : Option String
  pub master_kek_command : Option String
  pub audit_anchor_private_key : Option String
  pub audit_anchor_public_key : Option String
  pub audit_anchor_dir : Option String
  pub oidc_issuer : Option String
  pub oidc_client_id : Option String
  pub oidc_client_secret : Option String
  pub oidc_redirect_uri : Option String
  pub saml_entry_point : Option String
  pub saml_issuer : Option String
  pub saml_callback_url : Option String
  pub saml_idp_cert : Option String
  pub document_encryption_key : Option String
  pub embedding_provider : String
  pub embedding_model : String
  pub ollama_base_url : Option String
  pub openai_embedding_model : String
  pub openai_embedding_base_url : String
  pub openai_api_key : Option String
  pub max_upload_size_mb : ℕ
  pub clamav_socket : Option String
  pub document_storage_dir : String
  pub enable_api_docs : Option String
  pub webhook_timeout_ms : ℕ
  pub webhook_max_retries : ℕ

abbrev pub any_text : String → Bool
any_text text = true

abbrev pub is_named : String → Bool
is_named text = not (text == "")

-- `z.string()…optional()`
abbrev pub optional : (String → Bool) → Option String → Option (Option String)
optional accepts none = some none
optional accepts (some text) = if accepts text then some (some text) else none

-- `z.string()…default(d)`
abbrev pub defaulted : (String → Bool) → String → Option String → Option String
defaulted accepts d none = some d
defaulted accepts d (some text) = if accepts text then some text else none

-- `z.enum(options).default(d)`
abbrev pub enum_of : List String → String → Option String → Option String
enum_of options d raw = defaulted (includes options) d raw

abbrev pub is_at_most : Option ℕ → ℕ → Bool
is_at_most none n = true
is_at_most (some top) n = leb n top

-- The bounds of a number that was read.
abbrev pub bounded : ℕ → Option ℕ → Option ℕ → Option ℕ
bounded low high none = none
bounded low high (some n) = if leb low n && is_at_most high n then some n else none

-- The issue of a field, if it has one.
abbrev pub field_issue : {A : Type 0} → Zod → String → Option String → Option A → List ConfigIssue
field_issue zod name raw none = record { variable = name; reason = zod.message name raw } ∷ []
field_issue zod name raw (some _) = []

module _ (zod : Zod) where
  -- `z.coerce.number().int()…default(d)`
  abbrev pub number_in : ℕ → Option ℕ → ℕ → Option String → Option ℕ
  number_in low high d none = some d
  number_in low high d (some text) = bounded low high (zod.to_number text)
