-- ===== src/Config/Checks.antt =====
-- The checks of `loadConfig` in src/config/config.ts, in the order of the source. A check has failed or
-- not, and the issues of a configuration are those of its failed checks.
use capybara_ai.Prelude.{
  ℕ, ◌+◌, String, ◌<>◌, Bool, true, false, Option, none, some, List, [], ◌∷◌, not, includes, ◌&&◌,
  ◌==◌, string_eq, nat_eq, length, ltb, if◌then◌else◌, js_length, is_none,
}
use capybara_ai.Prelude.Effect.{Result, ok, throw}
use capybara_ai.Config.Schema.{Env, ConfigIssue, RawEnv}
use capybara_ai.Config.Secrets.{SecretAssessment, reason_text, is_strong}
use capybara_ai.Config.Keys.{ResolvedKeyMaterial, no_keys}
use capybara_ai.Config.Texts.{has_trivial_password, enforces_tls}
use capybara_ai.Config.Providers.{
  ProviderReading, configured, refused, providers_read, has_provider,
}

pub record Check : Type 0 where
  pub failed : Bool
  pub variable : String
  pub reason : String

-- `if (failed) issues.push({ variable, reason })`
abbrev pub issues_of : List Check → List ConfigIssue
issues_of [] = []
issues_of (c ∷ cs) =
    if c.failed
    then record { variable = c.variable; reason = c.reason } ∷ issues_of cs
    else issues_of cs

abbrev pub check_that : Bool → String → String → Check
check_that b v r = record { failed = b; variable = v; reason = r }

-- `if (text)`
abbrev pub is_set : Option String → Bool
is_set none = false
is_set (some text) = not (text == "")

abbrev pub key_material : Result String ResolvedKeyMaterial → ResolvedKeyMaterial
key_material (ok keys) = keys
key_material (throw _) = no_keys

abbrev pub key_source_checks : Result String ResolvedKeyMaterial → List Check
key_source_checks (ok _) = []
key_source_checks (throw why) =
    check_that true "KEY_SOURCE" ("failed to read key file (" <> (why <> ")")) ∷ []

-- `value === undefined || value.trim().length === 0`
abbrev pub is_missing : (String → String) → Option String → Bool
is_missing trim none = true
is_missing trim (some value) = js_length (trim value) == 0

abbrev pub required_in_production : List String
required_in_production =
    "DATABASE_URL" ∷ "COOKIE_SECRET" ∷ "SESSION_SECRET" ∷ "CORS_ALLOWED_ORIGINS" ∷ "APP_BASE_URL"
    ∷ []

abbrev pub presence_checks : (String → String) → Env → Bool → List String → List Check
presence_checks trim env production [] = []
presence_checks trim env production (key ∷ keys) =
    check_that (production && is_missing trim (env key)) key "required in production but missing"
    ∷ presence_checks trim env production keys

abbrev pub secret_checks : Bool → SecretAssessment → SecretAssessment → List Check
secret_checks production cookie session =
    check_that (production && not (is_strong cookie)) "COOKIE_SECRET"
      ("weak secret (" <> (reason_text cookie <> ")"))
    ∷ check_that (production && not (is_strong session)) "SESSION_SECRET"
        ("weak secret (" <> (reason_text session <> ")"))
    ∷ []

abbrev pub origin_checks : Bool → List String → List Check
origin_checks production origins =
    check_that (production && length origins == 0) "CORS_ALLOWED_ORIGINS"
      "required in production but empty"
    ∷ check_that (production && includes origins "*") "CORS_ALLOWED_ORIGINS"
        "wildcard \"*\" is not allowed in production"
    ∷ []

-- `env[name] === text`
abbrev pub is_text : Option String → String → Bool
is_text none text = false
is_text (some value) text = value == text

abbrev pub url_checks : Bool → Bool → Option String → List Check
url_checks production insecure none = []
url_checks production insecure (some url) =
    let applies = production && not (url == "") in
    check_that (applies && has_trivial_password url) "DATABASE_URL"
      "uses a trivial/default password"
    ∷ check_that (applies && (not (enforces_tls url) && not insecure)) "DATABASE_URL"
        "TLS not enforced (set sslmode=require)"
    ∷ check_that (applies && insecure) "DB_ALLOW_INSECURE" "must not be enabled in production"
    ∷ []

abbrev pub cookie_checks : Bool → Env → List Check
cookie_checks production env =
    check_that (production && is_text (env "SECURE_COOKIES") "false") "SECURE_COOKIES"
      "must be true in production"
    ∷ []

abbrev pub reading_checks : ProviderReading → List Check
reading_checks (configured _) = []
reading_checks (refused why) = check_that true "LLM_PROVIDERS" why ∷ []

-- `e.LLM_DEFAULT_PROVIDER && !llmProviders.some(…)`
abbrev pub lacks_default : ProviderReading → Option String → Bool
lacks_default reading none = false
lacks_default reading (some id) = not (id == "") && not (has_provider (providers_read reading) id)

abbrev pub default_checks : ProviderReading → Option String → List Check
default_checks reading default_provider =
    check_that (lacks_default reading default_provider) "LLM_DEFAULT_PROVIDER"
      "does not match any configured provider id"
    ∷ []

-- A key that is required in production: which text is wrong with it, and which without it.
abbrev pub key_check : Bool → String → String → Option String → Option (List ℕ) → Check
key_check production name wrong raw key =
    check_that (production && is_none key) name
      (if is_set raw then wrong else "required in production but missing")

abbrev pub count_set : List (Option String) → ℕ
count_set [] = 0
count_set (o ∷ os) = (if is_set o then 1 else 0) + count_set os

abbrev pub partly_set : List (Option String) → Bool
partly_set parts = ltb 0 (count_set parts) && ltb (count_set parts) 4

abbrev pub oidc_parts : RawEnv → List (Option String)
oidc_parts e = e.oidc_issuer ∷ e.oidc_client_id ∷ e.oidc_client_secret ∷ e.oidc_redirect_uri ∷ []

abbrev pub saml_parts : RawEnv → List (Option String)
saml_parts e = e.saml_entry_point ∷ e.saml_issuer ∷ e.saml_callback_url ∷ e.saml_idp_cert ∷ []

abbrev pub sign_on_checks : RawEnv → List Check
sign_on_checks e =
    check_that (partly_set (oidc_parts e)) "OIDC_*"
      "OIDC_ISSUER, OIDC_CLIENT_ID, OIDC_CLIENT_SECRET and OIDC_REDIRECT_URI must all be set together"
    ∷ check_that (partly_set (saml_parts e)) "SAML_*"
        "SAML_ENTRY_POINT, SAML_ISSUER, SAML_CALLBACK_URL and SAML_IDP_CERT must all be set together"
    ∷ []

abbrev pub embedding_checks : Bool → RawEnv → List Check
embedding_checks production e =
    check_that (production && (e.embedding_provider == "local" && not (is_set e.ollama_base_url)))
      "OLLAMA_BASE_URL" "required in production when EMBEDDING_PROVIDER=local"
    ∷ check_that (production && (e.embedding_provider == "openai" && not (is_set e.openai_api_key)))
        "OPENAI_API_KEY" "required in production when EMBEDDING_PROVIDER=openai"
    ∷ []
